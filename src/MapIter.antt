-- ===== src/MapIter.antt =====
-- `gomp_iter_binlpt_next` and `gomp_iter_srr_next` (libgomp/iter.c): how a thread takes its next
-- iterations from a task map. `none` is an access outside an array, or a sum of `int` or `long` that
-- overflows.
pub mod Search
pub mod Schedule
pub mod Complete
use libgomp.Prelude.{
  ℕ, zero, suc, ◌+◌, ◌-◌, List, Option, none, some, ◌==◌, if◌then◌else◌, get_elem?, write, ◌>>=◌,
}
use libgomp.Prelude.Int.{ℤ, pos, ◌+ℤ◌, as_int, as_long}

-- The fields of `struct gomp_work_share` that the two functions use.
pub record MapShare : Type 0 where
  pub loop_start : ℤ
  pub taskmap : List ℕ
  pub thread_start : List ℕ

-- `for (; i < __ntasks; i++) if (ws->taskmap[i] == tid) goto found;`, for `r` more rounds.
unfoldable pub find_task : List ℕ → ℕ → ℕ → ℕ → Option (Option ℕ)
find_task taskmap tid zero i = some none
find_task taskmap tid (suc r) i = do
  owner ← get_elem? taskmap i
  let rest = as_int (i + 1) >>= λ i'. find_task taskmap tid r i'
  if owner == tid then some (some i) else rest

-- `for (; j < __ntasks; j++) if (ws->taskmap[j] != tid) break;`, for `r` more rounds.
unfoldable pub find_end : List ℕ → ℕ → ℕ → ℕ → Option ℕ
find_end taskmap tid zero j = some j
find_end taskmap tid (suc r) j = do
  owner ← get_elem? taskmap j
  let rest = as_int (j + 1) >>= λ j'. find_end taskmap tid r j'
  if owner == tid then rest else some j

-- What a call returns: nothing (`false`), or `*pstart` and `*pend`.
abbrev pub Range : Type 0
Range = Option (ℤ × ℤ)

-- The two functions record where the thread goes on, and return the range from `i` to before `j`.
abbrev pub take_range : ℕ → ℕ → ℕ → MapShare → Option (Range × MapShare)
take_range tid i j ws = do
  starts ← write ws.thread_start tid j
  start ← as_long (ws.loop_start +ℤ pos i)
  end ← as_long (ws.loop_start +ℤ pos j)
  some (some (start, end), record ws { thread_start = starts })

unfoldable pub gomp_iter_binlpt_next : ℕ → ℕ → MapShare → Option (Range × MapShare)
gomp_iter_binlpt_next ntasks tid ws = do
  start ← get_elem? ws.thread_start tid >>= as_int
  found ← find_task ws.taskmap tid (ntasks - start) start
  elim found [
    | none ↦ some (none, ws)
    | some i ↦ as_int (i + 1) >>= λ j0.
        find_end ws.taskmap tid (ntasks - j0) j0 >>= λ j. take_range tid i j ws
  ]

unfoldable pub gomp_iter_srr_next : ℕ → ℕ → MapShare → Option (Range × MapShare)
gomp_iter_srr_next ntasks tid ws = do
  start ← get_elem? ws.thread_start tid >>= as_int
  found ← find_task ws.taskmap tid (ntasks - start) start
  elim found [ none ↦ some (none, ws) | some i ↦ as_int (i + 1) >>= λ j. take_range tid i j ws ]
