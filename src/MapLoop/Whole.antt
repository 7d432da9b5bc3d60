-- ===== src/MapLoop/Whole.antt =====
-- A whole BinLPT loop (libgomp/loop.c and libgomp/iter.c): from the workload to what the threads
-- execute.
use libgomp.Prelude.{
  ℕ, ◌^◌, ◌+◌, ◌/◌, ◌≤◌, ◌<◌, ◌≡◌, refl, sym, List, [], Option, none, some, true, arith, lt→ltb,
  length, get_or, set, length-set, get_elem?-set_self, write, read_lem, write_lem, ◌!◌, replicate,
  ◌>>=◌, Returns, Returns-bind, Returns-mono, none, false,
}
use mathlib.Core.Path.{subst}
use libgomp.Prelude.Int.{ℤ, pos, ◌+ℤ◌, IsLong}
use libgomp.Word.{word32}
use libgomp.Chunks.{sum_to}
use libgomp.Binlpt.{binlpt_balance}
use libgomp.Binlpt.Balance.{Balanced}
use libgomp.Binlpt.Result.{binlpt_balance-Balanced}
use libgomp.MapIter.{MapShare}
use libgomp.MapIter.Schedule.{Run, mine, run, fresh, IsSized, IsOrderly}
use libgomp.MapIter.Complete.{binlpt, Known, drain, binlpt_complete}
use libgomp.MapLoop.{
  Loop, Globals, nr_loops, omp_set_workload, binlpt_balancer, resolve_threads, chunk_count, balance,
  refresh, gomp_loop_init,
}

-- A loop, as its threads run it: they call in the order of `tids`, and then `tid` loops until it is
-- refused.
abbrev pub executed_by : (ntasks : ℕ) → List ℕ → ℕ → MapShare → Option Run
executed_by ntasks tids tid ws =
    run (binlpt ntasks) tids (record { ws = ws; executed = λ _. [] })
    >>= drain (binlpt ntasks) (ntasks + 1) tid

no_loop : Loop
no_loop = record { name = none; taskmap = none; override = false }

module _ (junk n loop_id : ℕ) (tasks : List ℕ) (ntasks biggest chunk_size : ℕ) (first : ℤ)
    (g : Globals) (known_loop : loop_id < nr_loops) (table : length g.loops ≡ nr_loops)
    (some_task : 0 < ntasks) (fits : ntasks ≤ length tasks) (small : sum_to tasks ntasks < word32)
    (few : ntasks < 2 ^ 31) (first_fits : IsLong first) (last_fits : IsLong (first +ℤ pos ntasks))
    (some_thread : 0 < n) (some_chunk : 0 < chunk_count chunk_size n)
    (room : chunk_count chunk_size n ≤ ntasks) (big : (x : ℕ) → tasks ! x ≤ biggest) where
  abbrev most : ℕ
  most = sum_to tasks ntasks / chunk_count chunk_size n + biggest

  -- The work share is fresh, and its map is balanced.
  abbrev Started : MapShare × Globals → Type 0
  Started o =
      Balanced tasks ntasks n most o.0.taskmap
      × (o.0 ≡ (fresh first o.0.taskmap n).ws)
      × (o.1.ntasks ≡ ntasks)

  abbrev Mapped : List ℕ × Globals → Type 0
  Mapped o =
      Balanced tasks ntasks n most o.0 × (length o.1.loops ≡ nr_loops) × (o.1.ntasks ≡ ntasks)

  -- The variables after `omp_set_workload`, with the number of chunks.
  abbrev ready : List Loop → Globals
  ready ls = record {
    loops = ls;
    curr_loop = some loop_id;
    tasks = tasks;
    ntasks = ntasks;
    nchunks = chunk_count chunk_size n;
  }

  balance-Mapped :
      (ls : List Loop)
      → length ls ≡ nr_loops
      → Returns (balance junk binlpt_balancer n (ready ls)) Mapped
  unfolding balance
  balance-Mapped ls el =
      Returns-bind (Balanced tasks ntasks n most) Mapped
        (binlpt_balance junk tasks ntasks n (chunk_count chunk_size n)) _
        (binlpt_balance-Balanced junk tasks ntasks n (chunk_count chunk_size n) biggest some_task
          fits small (omega arith) some_thread some_chunk room big)
        (λ m b. (b, el, refl))

  -- The slot of the loop, overridden.
  abbrev slot : Loop
  slot = record (get_or g.loops loop_id no_loop) { override = true }

  init-Started :
      Returns
        (omp_set_workload 0 loop_id tasks ntasks true g
          >>= gomp_loop_init junk (some n) binlpt_balancer first chunk_size 0)
        Started
  unfolding omp_set_workload gomp_loop_init refresh resolve_threads
  init-Started =
      rw
        (
          lt→ltb loop_id nr_loops known_loop,
          read_lem g.loops loop_id no_loop (omega arith),
          write_lem g.loops loop_id slot (omega arith),
          get_elem?-set_self g.loops loop_id slot (omega arith),
        )
        (Returns-bind Mapped Started
          (balance junk binlpt_balancer n (ready (set g.loops loop_id slot))) _
          (balance-Mapped (set g.loops loop_id slot)
            (omega (arith, length-set g.loops loop_id slot)))
          stored)
    where
      stored :
          (o : List ℕ × Globals)
          → Mapped o
          → Returns
              (write o.1.loops loop_id (record slot { taskmap = some o.0 }) >>= λ ls. some (
                record { loop_start = first; taskmap = o.0; thread_start = replicate n 0 },
                record o.1 { loops = ls },
              ))
              Started
      stored o p =
          rw (write_lem o.1.loops loop_id (record slot { taskmap = some o.0 }) (omega (arith, p.1)))
            (p.0, refl, p.2)

  module _ (tids : List ℕ) (known : Known n tids) (tid : ℕ) (member : tid < n) where
    -- The map is balanced, and the thread has executed what the map gives it.
    abbrev Done : Run → Type 0
    Done s =
        Balanced tasks ntasks n most s.ws.taskmap
        × (s.executed tid ≡ mine first s.ws.taskmap tid ntasks)

    sized : (map : List ℕ) → Balanced tasks ntasks n most map → IsSized first map ntasks
    sized map b = record {
      cells = omega (arith, b.width);
      few = few;
      first_fits = first_fits;
      last_fits = last_fits;
    }

    execution-Done :
        (map : List ℕ)
        → Balanced tasks ntasks n most map
        → Returns (executed_by ntasks tids tid (fresh first map n).ws) Done
    execution-Done map b =
        Returns-mono
          (λ s. IsOrderly first map ntasks n s × (s.executed tid ≡ mine first map tid ntasks)) Done
          (executed_by ntasks tids tid (fresh first map n).ws)
          (λ s p.
            subst (λ m. Balanced tasks ntasks n most m × (s.executed tid ≡ mine first m tid ntasks))
              (sym p.0.kept_map) (b, p.1))
          (binlpt_complete first map ntasks n (sized map b) tids known tid member)

    -- Let the initial thread attach a workload to a slot of the table of 32 loops, to be mapped
    -- anew, and the first thread of a team of `n > 0` threads then set a BinLPT loop up, with a
    -- positive number of chunks that is no more than the tasks (the chunk size, or `n` if that
    -- is 1); there are fewer than 2 ^ 31 tasks and at least one, an array with a cell for each,
    -- and loads that are `biggest` at most and add up to less than 2 ^ 32; the start of the
    -- loop, and the start plus the number of tasks, fit in a `long`. Let the threads call
    -- `gomp_iter_binlpt_next` in any order. A thread that afterwards loops until it is refused,
    -- for at most one call more than there are tasks, does end, and has then executed exactly
    -- the iterations that the map gives it, once each and in ascending order, and the map names
    -- a thread of the team for each task, so that the loads of two threads differ by at most
    -- the mean load of a chunk, rounded down, plus `biggest`.
    pub workload_complete :
        Returns
          (omp_set_workload 0 loop_id tasks ntasks true g
            >>= gomp_loop_init junk (some n) binlpt_balancer first chunk_size 0
            >>= λ o. executed_by o.1.ntasks tids tid o.0)
          (λ s.
            Balanced tasks ntasks n
              (sum_to tasks ntasks / chunk_count chunk_size n + biggest)
              s.ws.taskmap
            × (s.executed tid ≡ mine first s.ws.taskmap tid ntasks))
    workload_complete =
        Returns-bind Started Done
          (omp_set_workload 0 loop_id tasks ntasks true g
            >>= gomp_loop_init junk (some n) binlpt_balancer first chunk_size 0)
          _ init-Started
          (λ o st.
            subst (λ k. Returns (executed_by k tids tid o.0) Done) (sym st.2)
              (subst (λ w. Returns (executed_by ntasks tids tid w) Done) (sym st.1)
                (execution-Done o.0.taskmap st.0)))
