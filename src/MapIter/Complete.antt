-- ===== src/MapIter/Complete.antt =====
-- Whole runs over a task map (libgomp/iter.c).
use libgomp.Prelude.{
  ℕ, zero, suc, ◌+◌, ◌≤◌, ◌<◌, ◌≡◌, refl, sym, ◌∙◌, ap, List, [], ◌∷◌, Option, none, some, arith,
  ◌≢◌, eq→==, ◌!◌, length, replicate, length-replicate, get_or-replicate, get_or-set, ◌>>=◌,
  Returns, Returns-bind,
}
use mathlib.Core.Path.{subst}
use mathlib.Core.List.{append-nil}
use libgomp.Prelude.Int.{ℤ}
use libgomp.MapIter.{MapShare, Range, gomp_iter_binlpt_next, gomp_iter_srr_next}
use libgomp.MapIter.Search.{Advance, finished, taken, binlpt_next-Advance, srr_next-Advance}
use libgomp.MapIter.Schedule.{
  mine, mine_skip, NextTask, Run, log, turn, run, fresh, IsSized, IsOrderly, turn-IsOrderly, ready,
  Advance-IsOrderly,
}

abbrev pub binlpt : (ntasks : ℕ) → NextTask ntasks
binlpt ntasks = record {
  next = gomp_iter_binlpt_next ntasks;
  advances = binlpt_next-Advance ntasks;
}

abbrev pub srr : (ntasks : ℕ) → NextTask ntasks
srr ntasks = record { next = gomp_iter_srr_next ntasks; advances = srr_next-Advance ntasks }

-- The schedule names threads of the team.
abbrev pub Known : ℕ → List ℕ → Type 0
Known nthreads [] = Unit
Known nthreads (t ∷ ts) = (t < nthreads) × Known nthreads ts

fresh-IsOrderly :
    (first : ℤ) (map : List ℕ) (ntasks nthreads : ℕ)
    → IsOrderly first map ntasks nthreads (fresh first map nthreads)
fresh-IsOrderly first map ntasks nthreads = record {
  kept_first = refl;
  kept_map = refl;
  width = length-replicate nthreads 0;
  start_le = λ t l. omega (arith, zero_start t l);
  executed_mine = λ t l. sym (ap (mine first map t) (zero_start t l));
}
  where
    zero_start : (t : ℕ) → t < nthreads → replicate nthreads 0 ! t ≡ 0
    zero_start t l = get_or-replicate nthreads 0 t 0 l

-- A thread that is refused has executed all of its iterations.
refused :
    {ntasks tid : ℕ} {ws : MapShare} {o : Range × MapShare}
    → Advance ntasks tid ws o
    → o.0 ≡ none
    → (x : ℕ) → ws.thread_start ! tid ≤ x
    → x < ntasks
    → (ws.taskmap ! x ≡ tid → ⊥)
refused (finished f) e = f
refused (taken i j a b c d own) e = cc

-- A thread that gets a range goes on behind it.
progress :
    {ntasks tid : ℕ} {ws : MapShare} {o : Range × MapShare}
    → Advance ntasks tid ws o
    → tid < length ws.thread_start
    → o.0 ≢ none
    → ws.thread_start ! tid < o.1.thread_start ! tid
progress (finished f) k ne = absurd (ne refl)
progress {tid = tid} {ws = ws} (taken i j a b c d own) k ne =
    ground (arith, get_or-set ws.thread_start tid tid j 0 k)

-- The thread's loop: it executes ranges until it is refused. `none` is a fault, or no fuel left.
unfoldable pub drain : {ntasks : ℕ} → NextTask ntasks → ℕ → ℕ → Run → Option Run
drain sched zero tid s = none
drain sched (suc fuel) tid s = do
  (r, ws') ← sched.next tid s.ws
  let s' : Run = record { ws = ws'; executed = log tid r s.executed }
  elim r [ none ↦ some s' | some _ ↦ drain sched fuel tid s' ]

module _ {ntasks : ℕ} (sched : NextTask ntasks) (first : ℤ) (map : List ℕ) (nthreads : ℕ)
    (fits : IsSized first map ntasks) where
  run-IsOrderly :
      (tids : List ℕ) (s : Run)
      → Known nthreads tids
      → IsOrderly first map ntasks nthreads s
      → Returns (run sched tids s) (IsOrderly first map ntasks nthreads)
  unfolding run
  run-IsOrderly [] s k o = o
  run-IsOrderly (t ∷ ts) s k o =
      Returns-bind (IsOrderly first map ntasks nthreads) _ (turn sched t s) _
        (turn-IsOrderly sched first map nthreads fits s t k.0 o)
        (λ s' o'. run-IsOrderly ts s' k.1 o')

  -- What a thread has when it is done.
  all_mine :
      (s : Run) (tid : ℕ)
      → tid < nthreads
      → IsOrderly first map ntasks nthreads s
      → ((x : ℕ) → s.ws.thread_start ! tid ≤ x → x < ntasks → (s.ws.taskmap ! x ≡ tid → ⊥))
      → s.executed tid ≡ mine first map tid ntasks
  all_mine s tid h o f =
      o.executed_mine tid h
      ∙ sym (
          mine_skip first map tid (s.ws.thread_start ! tid) ntasks (o.start_le tid h)
            (λ x l u. subst (λ m. m ! x ≡ tid → ⊥) o.kept_map (f x l u)))

  -- What a thread's loop leaves.
  abbrev Drained : ℕ → Run → Type 0
  Drained tid s =
      IsOrderly first map ntasks nthreads s × (s.executed tid ≡ mine first map tid ntasks)

  drain-Drained :
      (fuel : ℕ) (s : Run) (tid : ℕ)
      → tid < nthreads
      → IsOrderly first map ntasks nthreads s
      → ntasks < fuel + s.ws.thread_start ! tid
      → Returns (drain sched fuel tid s) (Drained tid)
  unfolding drain
  drain-Drained zero s tid h o e = absurd (omega (arith, o.start_le tid h))
  drain-Drained (suc fuel) s tid h o e =
      Returns-bind (Advance ntasks tid s.ws) (Drained tid) (sched.next tid s.ws) _
        (sched.advances tid s.ws (ready sched first map nthreads fits s tid h o))
        (go (λ s' o' e'. drain-Drained fuel s' tid h o' e'))
    where
      go :
          ((s' : Run)
            → IsOrderly first map ntasks nthreads s'
            → ntasks < fuel + s'.ws.thread_start ! tid
            → Returns (drain sched fuel tid s') (Drained tid))
          → (q : Range × MapShare) → Advance ntasks tid s.ws q
          → Returns
              (elim q.0 [
                | none ↦ some (record { ws = q.1; executed = log tid q.0 s.executed })
                | some _ ↦
                    drain sched fuel tid (record { ws = q.1; executed = log tid q.0 s.executed })
              ])
              (Drained tid)
      go rec (none, ws') adv = (
        Advance-IsOrderly sched first map nthreads fits s tid h o none ws' adv,
        rw (eq→== tid tid refl)
            (append-nil (s.executed tid) ∙ all_mine s tid h o (refused adv refl)),
      )
      go rec (some p, ws') adv =
          rec (record { ws = ws'; executed = log tid (some p) s.executed })
            (Advance-IsOrderly sched first map nthreads fits s tid h o (some p) ws' adv)
            (omega (arith, progress adv (omega (arith, o.width)) (λ q. cc)))

module _ (first : ℤ) (map : List ℕ) (ntasks nthreads : ℕ) (fits : IsSized first map ntasks)
    (tids : List ℕ) (known : Known nthreads tids) (tid : ℕ) (h : tid < nthreads) where
  complete :
      (sched : NextTask ntasks)
      → Returns (run sched tids (fresh first map nthreads) >>= drain sched (ntasks + 1) tid) (λ s.
        IsOrderly first map ntasks nthreads s × (s.executed tid ≡ mine first map tid ntasks))
  complete sched =
      Returns-bind (IsOrderly first map ntasks nthreads) _
        (run sched tids (fresh first map nthreads)) (drain sched (ntasks + 1) tid)
        (run-IsOrderly sched first map nthreads fits tids (fresh first map nthreads) known
          (fresh-IsOrderly first map ntasks nthreads))
        (λ s o. drain-Drained sched first map nthreads fits (ntasks + 1) s tid h o (omega arith))

  -- Let the threads call `gomp_iter_binlpt_next` in any order on a fresh construct whose map has
  -- a cell for each of fewer than 2 ^ 31 tasks, and whose start and start plus number of tasks
  -- fit in a `long`. A thread that afterwards loops until it is refused, for at most `ntasks + 1`
  -- calls, does end, and has then executed exactly the iterations that the map gives it, once
  -- each and in ascending order; what the other threads have executed are theirs up to where they
  -- stand.
  pub binlpt_complete :
      Returns
        (run (binlpt ntasks) tids (fresh first map nthreads)
          >>= drain (binlpt ntasks) (ntasks + 1) tid)
        (λ s. IsOrderly first map ntasks nthreads s × (s.executed tid ≡ mine first map tid ntasks))
  binlpt_complete = complete (binlpt ntasks)

  -- Let the threads call `gomp_iter_srr_next` in any order on a fresh construct whose map has a
  -- cell for each of fewer than 2 ^ 31 tasks, and whose start and start plus number of tasks fit
  -- in a `long`. A thread that afterwards loops until it is refused, for at most `ntasks + 1`
  -- calls, does end, and has then executed exactly the iterations that the map gives it, once
  -- each and in ascending order; what the other threads have executed are theirs up to where they
  -- stand.
  pub srr_complete :
      Returns
        (run (srr ntasks) tids (fresh first map nthreads) >>= drain (srr ntasks) (ntasks + 1) tid)
        (λ s. IsOrderly first map ntasks nthreads s × (s.executed tid ≡ mine first map tid ntasks))
  srr_complete = complete (srr ntasks)
