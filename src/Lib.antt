-- ===== src/Lib.antt =====
-- Verification of libgomp, GCC's OpenMP runtime with the workload-aware loop schedules BinLPT and
-- SRR (src/libgomp).
--
-- A parallel loop is shared by the threads of a team through a `struct gomp_work_share`. The
-- schedules BinLPT and SRR first balance the known loads of the iterations into a task map; each
-- thread then takes its own iterations from the map. The schedules static, dynamic and guided cut
-- the iteration space by arithmetic on the bounds, on thread numbers and on a shared `next`. A loop
-- with an ORDERED region queues its threads, so that they enter one at a time.
--
-- Which file models which code:
--   * Sort.antt, Sort/: `exch`, `insertion` and `sort` (src/libgomp/loop.c).
--   * Chunks.antt, Chunks/: `compute_cummulativesum`, `compute_chunksizes` and `compute_chunks`
--     (src/libgomp/loop.c).
--   * Binlpt.antt, Binlpt/: `binlpt_balance` (src/libgomp/loop.c).
--   * Srr.antt, Srr/: `srr_balance` (src/libgomp/loop.c).
--   * MapIter.antt, MapIter/: `gomp_iter_binlpt_next` and `gomp_iter_srr_next` (src/libgomp/iter.c),
--     and the threads that call them in any order.
--   * MapLoop.antt, MapLoop/: the table of loops, `omp_set_workload`, and `gomp_loop_init`,
--     `gomp_loop_binlpt_start` and `gomp_loop_srr_start` for these schedules (src/libgomp/loop.c).
--   * Ordered.antt, Ordered/: src/libgomp/ordered.c, and the line of threads that it stands for.
--   * IterUll.antt, IterUll/: src/libgomp/iter_ull.c, with compare-and-swap loops as runs over the
--     values that the thread finds in `next`.
--   * LoopUll.antt, LoopUll/: src/libgomp/loop_ull.c, a construct as a value that the first thread
--     makes (`gomp_work_share_start`) and the others find.
--   * IterLong.antt, IterLong/: the schedules over `long` of src/libgomp/iter.c. Signed overflow is
--     undefined in C: products by the step wrap here, other signed sums are integers without bounds,
--     and `unsigned long` sums wrap. The theorems exclude signed overflow.
--   * LoopLong.antt, LoopLong/: the cases static, dynamic and guided of `gomp_loop_init` and the start
--     and next functions over `long` (src/libgomp/loop.c).
--   * Single.antt, Single/: `GOMP_single_start` (src/libgomp/single.c).
--   * Sections.antt, Sections/: src/libgomp/sections.c, where a `long` is longer than an `unsigned`.
--   * Parallel.antt, Parallel/: `gomp_resolve_num_threads`, and what `GOMP_parallel_end` does to the
--     count of busy threads (src/libgomp/parallel.c); `gomp_dynamic_max_threads` of
--     src/libgomp/config/linux/proc.c, from the processors and the load that the system reports.
--   * Cancel.antt, Cancel/: `GOMP_cancel` and `GOMP_cancellation_point` (src/libgomp/parallel.c) with
--     `gomp_team_barrier_cancel` (src/libgomp/config/linux/bar.c), each as one step, as the flags only
--     go up between two barriers. Task groups are numbered.
--   * Work.antt, Work/: `alloc_work_share` and `free_work_share` (src/libgomp/work.c). Memory is the
--     function that gives the field `next_free` of each work share, by its number.
--   * Env.antt, Env/: the parsers of schedules, numbers, lists of numbers, sizes, counts, switches and
--     policies of affinity of src/libgomp/env.c. A text is a list of bytes, and Env/Text.antt says
--     what the functions of the C library do with it. Storage for a list does not run out.
--   * Mutex.antt, Mutex/: the futex mutex of src/libgomp/config/linux (mutex.h, mutex.c, wait.h), any
--     number of threads interleaved at their atomic accesses. A thread asleep in the kernel runs on
--     when it is woken, or by itself.
--   * NestLock.antt, NestLock/: the nested locks of src/libgomp/config/linux/lock.c, each call as one
--     step.
--   * Barrier.antt, Barrier/: `gomp_barrier_wait` of src/libgomp/config/linux (bar.h, bar.c), the same
--     way. A thread that waits looks at the generation at any time, asleep or not.
--   * Prelude.antt, Prelude/, Word.antt: shared names, lists with bounds, loops, and the wrapping
--     arithmetic of `unsigned` (32 bits) and `unsigned long long` (64 bits).
--   * Tests.antt, Tests/: runs on small inputs.
--
-- How the code is read: a function that can access an array out of bounds, divide by zero or fail an
-- assertion returns an `Option`, and `none` is that fault. Memory that `malloc` or a declaration
-- leaves uninitialised has one value, `junk`, which is a parameter. `assert(p != NULL)` after an
-- allocation is taken to hold, and `free` does nothing. A semaphore is its count, and waiting on a
-- count of zero is the result `blocks`. A team is its number of threads, or `none` for an orphaned
-- construct. `__ntasks` and `__nchunks` are arguments, and fields of `Globals` in
-- MapLoop.antt.
--
-- Fuel and bounds: a counted loop runs for as many rounds as its bounds give. The loop of
-- `compute_chunksizes` has `ntasks` rounds of fuel, and each round takes a task. A thread's loop
-- over the task map has `ntasks + 1` calls, and each call moves it on. The repeated calls of the
-- dynamic and guided schedules have one more than the end of the loop, and each moves `next` on.
-- Over a task map, an `int` or `long` sum that overflows is a fault, as an access outside an array is.
--
-- Not modelled: the start and end of constructs (src/libgomp/work.c), tasks, teams, semaphores,
-- the barriers of a team (src/libgomp/config/linux/bar.c from `gomp_team_barrier_wait_end` on), the
-- parsers of places (src/libgomp/env.c), and the weak memory model: each atomic access is a step.
-- `quicksort` of src/libgomp/loop.c is never called.
pub mod Prelude
pub mod Word
pub mod Sort
pub mod Chunks
pub mod Binlpt
pub mod Srr
pub mod MapIter
pub mod MapLoop
pub mod Ordered
pub mod IterUll
pub mod LoopUll
pub mod IterLong
pub mod Work
pub mod LoopLong
pub mod Single
pub mod Sections
pub mod Parallel
pub mod Env
pub mod Mutex
pub mod NestLock
pub mod Barrier
pub mod Cancel
pub mod Tests
