-- ===== src/Srr.antt =====
-- `srr_balance` (libgomp/loop.c): the smart round-robin scheduler, which deals out the iterations in
-- pairs of a light and a heavy one.
pub mod Pairs
use libgomp.Prelude.{
  ℕ, zero, suc, ◌+◌, ◌-◌, ◌%◌, List, Option, none, some, ◌==◌, if◌then◌else◌, get_elem?, replicate,
  write, ◌>>=◌, for_up, for_down,
}
use libgomp.Word.{add32}
use libgomp.Sort.{Arrays, sort}
use libgomp.Binlpt.{least_loaded}

-- The variables that the two loops change.
pub record Deal : Type 0 where
  pub taskmap : List ℕ
  pub load : List ℕ
  pub tid : ℕ

-- `(tid + 1)%nthreads`; a division by zero faults.
unfoldable pub next_tid : ℕ → ℕ → Option ℕ
next_tid tid nthreads = if nthreads == 0 then none else some (add32 tid 1 % nthreads)

-- The body of the first loop, at the sorted position `i`.
unfoldable pub deal_pair : List ℕ → List ℕ → ℕ → ℕ → ℕ → ℕ → Deal → Option Deal
deal_pair tasks sortmap ntasks nthreads k i s = do
  l ← get_elem? sortmap i
  r ← get_elem? sortmap (ntasks - ((i - k) + 1))
  m ← write s.taskmap l s.tid
  m' ← write m r s.tid
  old ← get_elem? s.load s.tid
  x ← get_elem? tasks l
  y ← get_elem? tasks r
  load' ← write s.load s.tid (add32 old (add32 x y))
  tid' ← next_tid s.tid nthreads
  some (record { taskmap = m'; load = load'; tid = tid' })

-- The body of the second loop: the task at the position `i - 1` goes to the least loaded thread.
unfoldable pub deal_rest : List ℕ → List ℕ → ℕ → ℕ → Deal → Option Deal
deal_rest tasks sortmap nthreads i s = do
  least ← least_loaded s.load nthreads
  p ← get_elem? sortmap (i - 1)
  m ← write s.taskmap p least
  old ← get_elem? s.load least
  x ← get_elem? tasks p
  load' ← write s.load least (add32 old x)
  some (record s { taskmap = m; load = load' })

-- What the caller has afterwards: the task map, and its own array of loads, which was sorted.
pub record Schedule : Type 0 where
  pub taskmap : List ℕ
  pub tasks : List ℕ

-- `junk` is what `malloc` leaves in `taskmap` and the declaration in `sortmap`. `load` has a cell
-- for each task.
unfoldable pub srr_balance : ℕ → List ℕ → ℕ → ℕ → Option Schedule
srr_balance junk tasks ntasks nthreads = do
  sorted ← sort tasks ntasks (replicate ntasks junk)
  let k = ntasks % 2
  s ←
      for_up (ntasks - k) k (deal_pair sorted.a sorted.map ntasks nthreads k)
        (record { taskmap = replicate ntasks junk; load = replicate ntasks 0; tid = 0 })
  s' ← for_down k (deal_rest sorted.a sorted.map nthreads) s
  some (record { taskmap = s'.taskmap; tasks = sorted.a })
