-- ===== src/MapIter/Search.antt =====
-- What one call of `gomp_iter_binlpt_next` or `gomp_iter_srr_next` (libgomp/iter.c) does.
use libgomp.Prelude.{
  ℕ, zero, suc, ◌^◌, ◌+◌, ◌-◌, ◌≤◌, ◌<◌, ◌≡◌, ◌≢◌, List, Option, none, some, arith, ◌==◌, ◌!◌,
  length, set, read_lem, write_lem, Returns, Returns-bind, Returns-mono, Bool-cases, inl, inr,
}
use libgomp.Prelude.Int.{pos, ◌+ℤ◌, int_laws, IsLong, as_int_lem, as_long_lem}
use libgomp.MapIter.{
  MapShare, find_task, find_end, Range, take_range, gomp_iter_binlpt_next, gomp_iter_srr_next,
}

-- The search found the first task of `tid` from `i` on, or there is none.
abbrev Found : List ℕ → ℕ → ℕ → ℕ → Option ℕ → Type 0
Found map tid ntasks i none = (x : ℕ) → i ≤ x → x < ntasks → map ! x ≢ tid
Found map tid ntasks i (some k) =
    (i ≤ k) × (k < ntasks) × (map ! k ≡ tid) × ((x : ℕ) → i ≤ x → x < k → map ! x ≢ tid)

Found-step :
    (map : List ℕ) (tid ntasks i : ℕ) (o : Option ℕ)
    → map ! i ≢ tid
    → Found map tid ntasks (i + 1) o
    → Found map tid ntasks i o
Found-step map tid ntasks i none ne f = λ x l u. ground (arith, f x)
Found-step map tid ntasks i (some k) ne f =
    (omega (arith, f.0), f.1, f.2, λ x l u. ground (arith, f.3 x))

find_task-Found :
    (map : List ℕ) (tid ntasks r i : ℕ)
    → ntasks ≤ length map
    → ntasks < 2 ^ 31
    → i + r ≡ ntasks
    → Returns (find_task map tid r i) (Found map tid ntasks i)
unfolding find_task
find_task-Found map tid ntasks zero i fits few e = λ x l u. absurd (omega arith)
find_task-Found map tid ntasks (suc r) i fits few e =
    rw (read_lem map i 0 (omega arith), as_int_lem (i + 1) (omega arith))
      (elim (Bool-cases (map ! i == tid)) [
        | inl hit ↦ rw hit (omega arith, omega arith, ground arith, λ x l u. absurd (omega arith))
        | inr miss ↦ rw miss (
            Returns-mono (Found map tid ntasks (i + 1)) (Found map tid ntasks i)
              (find_task map tid r (i + 1)) (λ o f. Found-step map tid ntasks i o (ground arith) f)
              (find_task-Found map tid ntasks r (i + 1) fits few (omega arith)))
      ])

-- The end of the run of tasks of `tid` that begins before `j`.
abbrev Ends : List ℕ → ℕ → ℕ → ℕ → ℕ → Type 0
Ends map tid ntasks j k = (j ≤ k) × (k ≤ ntasks) × ((x : ℕ) → j ≤ x → x < k → map ! x ≡ tid)

find_end-Ends :
    (map : List ℕ) (tid ntasks r j : ℕ)
    → ntasks ≤ length map
    → ntasks < 2 ^ 31
    → j + r ≡ ntasks
    → Returns (find_end map tid r j) (Ends map tid ntasks j)
unfolding find_end
find_end-Ends map tid ntasks zero j fits few e =
    (omega arith, omega arith, λ x l u. absurd (omega arith))
find_end-Ends map tid ntasks (suc r) j fits few e =
    rw (read_lem map j 0 (omega arith), as_int_lem (j + 1) (omega arith))
      (elim (Bool-cases (map ! j == tid)) [
        | inl more ↦ rw more (
            Returns-mono (Ends map tid ntasks (j + 1)) (Ends map tid ntasks j)
              (find_end map tid r (j + 1))
              (λ k f. (omega (arith, f.0), f.1, λ x l u. ground (arith, f.2 x)))
              (find_end-Ends map tid ntasks r (j + 1) fits few (omega arith)))
        | inr stop ↦ rw stop (omega arith, omega arith, λ x l u. absurd (omega arith))
      ])

-- One call of thread `tid`: `false` when it has nothing left, else the next tasks in its order.
pub data Advance (ntasks tid : ℕ) (ws : MapShare) : Range × MapShare → Type 0 where
  finished :
      ((x : ℕ) → ws.thread_start ! tid ≤ x → x < ntasks → ws.taskmap ! x ≢ tid)
      → Advance ntasks tid ws (none, ws)
  taken :
      (i j : ℕ)
      → ws.thread_start ! tid ≤ i
      → i < j
      → j ≤ ntasks
      → ((x : ℕ) → ws.thread_start ! tid ≤ x → x < i → ws.taskmap ! x ≢ tid)
      → ((x : ℕ) → i ≤ x → x < j → ws.taskmap ! x ≡ tid)
      → Advance ntasks tid ws (
        some (ws.loop_start +ℤ pos i, ws.loop_start +ℤ pos j),
        record ws { thread_start = set ws.thread_start tid j },
      )

-- The share can be used by thread `tid`.
pub record IsReady (ntasks tid : ℕ) (ws : MapShare) : Type 0 where
  pub fits : ntasks ≤ length ws.taskmap
  pub few : ntasks < 2 ^ 31
  pub first_fits : IsLong ws.loop_start
  pub last_fits : IsLong (ws.loop_start +ℤ pos ntasks)
  pub known : tid < length ws.thread_start
  pub start_le : ws.thread_start ! tid ≤ ntasks

module _ (ntasks tid : ℕ) (ws : MapShare) (ready : IsReady ntasks tid ws) where
  start : ℕ
  start = ws.thread_start ! tid

  value-IsLong : (i : ℕ) → i ≤ ntasks → IsLong (ws.loop_start +ℤ pos i)
  value-IsLong i h = (omega (int_laws, ready.first_fits.0), omega (int_laws, ready.last_fits.1))

  take_range-Advance :
      (i j : ℕ)
      → Found ws.taskmap tid ntasks start (some i)
      → i < j
      → j ≤ ntasks
      → ((x : ℕ) → i ≤ x → x < j → ws.taskmap ! x ≡ tid)
      → Returns (take_range tid i j ws) (Advance ntasks tid ws)
  unfolding start
  take_range-Advance i j f l u own =
      rw
        (
          write_lem ws.thread_start tid j ready.known,
          as_long_lem (ws.loop_start +ℤ pos i) (value-IsLong i (omega arith)),
          as_long_lem (ws.loop_start +ℤ pos j) (value-IsLong j u),
        )
        (taken i j f.0 l u f.3 own)

  pub binlpt_next-Advance : Returns (gomp_iter_binlpt_next ntasks tid ws) (Advance ntasks tid ws)
  unfolding gomp_iter_binlpt_next start
  binlpt_next-Advance =
      rw
        (
          read_lem ws.thread_start tid 0 ready.known,
          as_int_lem (ws.thread_start ! tid) (omega (arith, ready.start_le, ready.few)),
        )
        (Returns-bind (Found ws.taskmap tid ntasks start) _
          (find_task ws.taskmap tid (ntasks - start) start) _
          (find_task-Found ws.taskmap tid ntasks (ntasks - start) start ready.fits ready.few
            (omega (arith, ready.start_le)))
          (elim [
            | none ↦ λ f. finished f
            | some i ↦ λ f. rw (as_int_lem (i + 1) (omega (arith, f.1, ready.few))) (
                Returns-bind (Ends ws.taskmap tid ntasks (i + 1)) _
                  (find_end ws.taskmap tid (ntasks - (i + 1)) (i + 1)) _
                  (find_end-Ends ws.taskmap tid ntasks (ntasks - (i + 1)) (i + 1) ready.fits
                    ready.few (omega (arith, f.1)))
                  (λ j e.
                    take_range-Advance i j f (omega (arith, e.0)) e.1
                      (λ x l u. ground (arith, f.2, e.2 x))))
          ]))

  pub srr_next-Advance : Returns (gomp_iter_srr_next ntasks tid ws) (Advance ntasks tid ws)
  unfolding gomp_iter_srr_next start
  srr_next-Advance =
      rw
        (
          read_lem ws.thread_start tid 0 ready.known,
          as_int_lem (ws.thread_start ! tid) (omega (arith, ready.start_le, ready.few)),
        )
        (Returns-bind (Found ws.taskmap tid ntasks start) _
          (find_task ws.taskmap tid (ntasks - start) start) _
          (find_task-Found ws.taskmap tid ntasks (ntasks - start) start ready.fits ready.few
            (omega (arith, ready.start_le)))
          (elim [
            | none ↦ λ f. finished f
            | some i ↦ λ f. rw (as_int_lem (i + 1) (omega (arith, f.1, ready.few))) (
                take_range-Advance i (i + 1) f (omega arith) (omega (arith, f.1))
                  (λ x l u. ground (arith, f.2)))
          ]))
