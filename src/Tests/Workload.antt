-- ===== src/Tests/Workload.antt =====
-- A loop with a workload (libgomp/loop.c): three iterations for two threads.
use libgomp.Prelude.{
  ℕ, zero, suc, ◌+◌, ◌/◌, ◌≤◌, ◌≡◌, refl, ◌≢◌, List, [], ◌∷◌, true, false, none, some, arith, ◌!◌,
  length-replicate, replicate, ◌>>=◌, Returns,
}
use libgomp.Prelude.Int.{pos, ◌+ℤ◌, IsLong}
use libgomp.Chunks.{sum_to}
use libgomp.Binlpt.Balance.{Balanced}
use libgomp.MapIter.Schedule.{mine}
use libgomp.MapLoop.{
  Loop, Globals, chunk_count, omp_loop_register, omp_loop_unregister, omp_set_workload,
  binlpt_balancer, gomp_loop_init,
}
use libgomp.MapLoop.Table.{AllNamed, table_of, register-unregister}
use libgomp.MapLoop.Whole.{executed_by, workload_complete}

abbrev named : Loop
named = record { name = some (97 ∷ []); taskmap = none; override = false }

abbrev globals : List Loop → Globals
globals ls = record { loops = ls; curr_loop = none; tasks = []; ntasks = 0; nchunks = 1 }

abbrev full : List Loop
full = replicate 32 named

abbrev loads : List ℕ
loads = 4 ∷ 2 ∷ 6 ∷ []

loads-le : (x : ℕ) → loads ! x ≤ 6
loads-le zero = omega arith
loads-le (suc zero) = omega arith
loads-le (suc (suc zero)) = omega arith
loads-le (suc (suc (suc x))) = omega arith

-- a chunk size of one makes a chunk for each thread
counted : chunk_count 1 2 ≡ 2
unfolding chunk_count
counted = refl

last_fits : IsLong (pos 10 +ℤ pos 3)
unfolding ◌+ℤ◌
last_fits = (omega arith, omega arith)

workload_complete_example :
    Returns
      (omp_set_workload 0 5 loads 3 true (globals full)
        >>= gomp_loop_init 7 (some 2) binlpt_balancer (pos 10) 1 0
        >>= λ o. executed_by o.1.ntasks (1 ∷ 0 ∷ []) 1 o.0)
      (λ s.
        Balanced loads 3 2 (sum_to loads 3 / chunk_count 1 2 + 6) s.ws.taskmap
        × (s.executed 1 ≡ mine (pos 10) s.ws.taskmap 1 3))
workload_complete_example =
    workload_complete 7 2 5 loads 3 6 1 (pos 10) (globals full) (omega arith)
      (length-replicate 32 named) (omega arith) (omega arith) (omega arith) (omega arith)
      (omega arith, omega arith) last_fits (omega arith) (rw counted (omega arith))
      (rw counted (omega arith)) loads-le (1 ∷ 0 ∷ []) (omega arith, (omega arith, tt)) 1
      (omega arith)

some-ne-none : (s : List ℕ) → some s ≢ none
some-ne-none s e = cc e

one_named : AllNamed (named ∷ [])
one_named = (some-ne-none (97 ∷ []), tt)

register-unregister_example :
    (omp_loop_register (98 ∷ []) (globals (table_of (named ∷ []) true [])) >>= λ o.
    omp_loop_unregister o.0 o.1)
    ≡ some (globals (table_of (named ∷ []) true []))
register-unregister_example =
    register-unregister (globals []) (named ∷ []) [] true (98 ∷ []) one_named (omega arith)
