-- ===== src/Binlpt.antt =====
-- `binlpt_balance` (libgomp/loop.c): bin packing of the chunks, the longest processing time first.
pub mod Owned
pub mod Steps
pub mod Balance
pub mod Result
use libgomp.Prelude.{
  ℕ, suc, ◌+◌, ◌-◌, ◌≤◌, ◌<◌, ◌≡◌, refl, List, [], ◌∷◌, Option, none, some, ◌==◌, ltb,
  if◌then◌else◌, get_elem?, replicate, write, ◌>>=◌, for_up, for_down,
}
use libgomp.Word.{add32}
use libgomp.Sort.{Arrays, sort}
use libgomp.Chunks.{compute_cummulativesum, compute_chunksizes, compute_chunks}

-- `if (load[j] < load[tid]) tid = j;`
unfoldable pub least_step : List ℕ → ℕ → ℕ → Option ℕ
least_step load j tid = do
  x ← get_elem? load j
  y ← get_elem? load tid
  some (if ltb x y then j else tid)

-- `tid = 0; for (j = 1; j < nthreads; j++)`: the first of the least loaded threads.
unfoldable pub least_loaded : List ℕ → ℕ → Option ℕ
least_loaded load nthreads = for_up (nthreads - 1) 1 (least_step load) 0

-- The two arrays that the main loop changes.
pub record Bins : Type 0 where
  pub taskmap : List ℕ
  pub load : List ℕ

-- `for (j = 0; j < size; j++) taskmap[off + j] = tid;`
unfoldable pub assign : ℕ → ℕ → ℕ → List ℕ → Option (List ℕ)
assign off size tid taskmap = for_up size 0 (λ j m. write m (add32 off j) tid) taskmap

-- The body of the main loop. `chunks` is sorted, and `sortmap` and `chunksizes` are read at the
-- position and the number of a chunk.
unfoldable pub place_chunk : List ℕ → List ℕ → List ℕ → List ℕ → ℕ → ℕ → Bins → Option Bins
place_chunk chunks sortmap chunksizes chunkoff nthreads i s = do
  w ← get_elem? chunks (i - 1)
  if w == 0 then some s else (do
    tid ← least_loaded s.load nthreads
    c ← get_elem? sortmap (i - 1)
    size ← get_elem? chunksizes c
    off ← get_elem? chunkoff c
    taskmap' ← assign off size tid s.taskmap
    l ← get_elem? s.load tid
    load' ← write s.load tid (add32 l w)
    some (record { taskmap = taskmap'; load = load' }))

-- `junk` is what `malloc` leaves in the offsets and the declaration in `sortmap`.
unfoldable pub binlpt_balance : ℕ → List ℕ → ℕ → ℕ → ℕ → Option (List ℕ)
binlpt_balance junk tasks ntasks nthreads nchunks = do
  chunksizes ← compute_chunksizes junk tasks ntasks nchunks
  chunks ← compute_chunks tasks ntasks chunksizes nchunks
  chunkoff ← compute_cummulativesum junk chunksizes nchunks
  sorted ← sort chunks nchunks (replicate ntasks junk)
  s ←
      for_down nchunks (place_chunk sorted.a sorted.map chunksizes chunkoff nthreads)
        (record { taskmap = replicate ntasks 0; load = replicate nthreads 0 })
  some s.taskmap
