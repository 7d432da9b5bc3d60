-- ===== src/Tests/Maps.antt =====
-- Two threads on a task map (libgomp/iter.c).
use libgomp.Prelude.{ℕ, ◌+◌, ◌≡◌, refl, List, [], ◌∷◌, some, arith, ◌>>=◌, Returns}
use libgomp.Prelude.Int.{pos, negsuc, ◌+ℤ◌}
use libgomp.MapIter.{find_task, find_end, gomp_iter_binlpt_next, gomp_iter_srr_next}
use libgomp.MapIter.Schedule.{mine, run, fresh, IsSized, IsOrderly}
use libgomp.MapIter.Complete.{binlpt, srr, drain, binlpt_complete, srr_complete}

abbrev owners : List ℕ
owners = 1 ∷ 0 ∷ 0 ∷ 1 ∷ 0 ∷ []

sized : IsSized (negsuc 1) owners 5
unfolding ◌+ℤ◌
sized = record {
  cells = omega arith;
  few = omega arith;
  first_fits = (omega arith, omega arith);
  last_fits = (omega arith, omega arith);
}

sized_srr : IsSized (pos 3) owners 5
unfolding ◌+ℤ◌
sized_srr = record {
  cells = omega arith;
  few = omega arith;
  first_fits = (omega arith, omega arith);
  last_fits = (omega arith, omega arith);
}

program : Unit {0}
unfolding find_task find_end gomp_iter_binlpt_next gomp_iter_srr_next ◌+ℤ◌
program = tt

-- the second range of thread 1, of a loop that starts at 10
second_range :
    gomp_iter_binlpt_next 5 1
      (record { loop_start = pos 10; taskmap = owners; thread_start = 0 ∷ 1 ∷ [] })
    ≡ some (
      some (pos 13, pos 14),
      record { loop_start = pos 10; taskmap = owners; thread_start = 0 ∷ 4 ∷ [] },
    )
unfolding program
second_range = refl

-- consecutive iterations come singly here
srr_range :
    gomp_iter_srr_next 5 0
      (record { loop_start = negsuc 0; taskmap = owners; thread_start = 0 ∷ 0 ∷ [] })
    ≡ some (
      some (pos 0, pos 1),
      record { loop_start = negsuc 0; taskmap = owners; thread_start = 2 ∷ 0 ∷ [] },
    )
unfolding program
srr_range = refl

binlpt_complete_example :
    Returns
      (run (binlpt 5) (1 ∷ 0 ∷ 1 ∷ []) (fresh (negsuc 1) owners 2) >>= drain (binlpt 5) (5 + 1) 0)
      (λ s. IsOrderly (negsuc 1) owners 5 2 s × (s.executed 0 ≡ mine (negsuc 1) owners 0 5))
binlpt_complete_example =
    binlpt_complete (negsuc 1) owners 5 2 sized (1 ∷ 0 ∷ 1 ∷ [])
      (omega arith, (omega arith, (omega arith, tt))) 0 (omega arith)

srr_complete_example :
    Returns
      (run (srr 5) (0 ∷ 1 ∷ []) (fresh (pos 3) owners 2) >>= drain (srr 5) (5 + 1) 1)
      (λ s. IsOrderly (pos 3) owners 5 2 s × (s.executed 1 ≡ mine (pos 3) owners 1 5))
srr_complete_example =
    srr_complete (pos 3) owners 5 2 sized_srr (0 ∷ 1 ∷ []) (omega arith, (omega arith, tt)) 1
      (omega arith)
