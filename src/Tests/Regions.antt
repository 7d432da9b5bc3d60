-- ===== src/Tests/Regions.antt =====
-- SINGLE and SECTIONS constructs, and the number of threads of a region (libgomp/single.c, sections.c
-- and parallel.c).
use libgomp.Prelude.{
  ℕ, ◌≤◌, ◌≡◌, ◌↔◌, refl, some, List, [], ◌∷◌, true, false, arith, Returns, ltb, if◌then◌else◌, inl,
  inr, ◌>>=◌,
}
use libgomp.Prelude.Int.{◌+ℤ◌}
use libgomp.Word.{add64, sub64}
use libgomp.IterLong.{fetch_long, gomp_iter_dynamic_next}
use libgomp.Single.{gomp_single_start}
use libgomp.Single.First.{call, after_calls, calls, single_start_first}
use libgomp.Sections.{gomp_sections_init, gomp_sections_next, gomp_sections_start}
use libgomp.Sections.Order.{after_sections, section_in_turn}
use libgomp.Parallel.{
  Limits, gomp_dynamic_max_threads, max_threads, room_for, reserve, gomp_resolve_num_threads,
  gomp_parallel_end,
}
use libgomp.Parallel.Bounds.{IsUsable, Granted, resolve-Granted, Restores, resolve-Restores}

program : Unit {0}
unfolding gomp_single_start add64 sub64 ◌+ℤ◌ fetch_long gomp_iter_dynamic_next gomp_sections_init
    gomp_sections_next gomp_sections_start gomp_dynamic_max_threads max_threads room_for reserve
    gomp_resolve_num_threads gomp_parallel_end
program = tt

-- thread 1 has met two constructs and thread 0 one
abbrev met : List ℕ
met = 1 ∷ 0 ∷ 1 ∷ []

-- the second construct of thread 0 is already executed
too_late : (call 0 (after_calls met)).ret ≡ false
unfolding program
too_late = refl

single_start_first_example :
    ((call 1 (after_calls met)).ret ≡ true) ↔ ((j : ℕ) → calls j met ≤ calls 1 met)
single_start_first_example = single_start_first met 1 (omega arith)

-- three calls for two sections
no_third :
    (gomp_sections_start 2 [] (after_sections 2 2) >>= λ (section, ws). some section) ≡ some 0
unfolding program
no_third = refl

section_in_turn_example :
    (gomp_sections_start 2 [] (after_sections 2 1) >>= λ (section, ws). some section)
    ≡ some (if ltb 1 2 then 2 else 0)
section_in_turn_example = section_in_turn 2 1 [] (omega arith)

-- eight threads by default, and a limit of ten
abbrev limits : Limits
limits = record {
  nthreads_var = 8;
  thread_limit_var = 10;
  dyn_var = false;
  nest_var = true;
  max_active_levels_var = 4;
}

limits-IsUsable : IsUsable limits
limits-IsUsable = record { some_threads = omega arith; some_room = omega arith; fits = omega arith }

-- six are busy: a nested region gets five, itself included
nested :
    gomp_resolve_num_threads limits 0 0 1
      ((6, 6) ∷ [])
      (record { active_level = 1; in_team = true; busy = some 6 })
    ≡ some (5, some 10)
unfolding program
nested = refl

-- the first swap finds that another thread has taken two more
resolve-Granted_example :
    Returns
      (gomp_resolve_num_threads limits 0 0
        (gomp_dynamic_max_threads 8 4 1)
        ((8, 8) ∷ (8, 8) ∷ [])
        (record { active_level = 1; in_team = true; busy = some 6 }))
      (Granted limits 0)
resolve-Granted_example =
    resolve-Granted limits limits-IsUsable 0 0 4 1 (omega arith) 1 true 6 ((8, 8) ∷ (8, 8) ∷ [])
      (omega arith) (inr ((omega arith, omega arith), inl refl))

resolve-Restores_example :
    Returns
      (gomp_resolve_num_threads limits 0 0
        (gomp_dynamic_max_threads 8 4 1)
        ((6, 6) ∷ [])
        (record { active_level = 1; in_team = true; busy = some 6 }))
      (Restores limits true 6)
resolve-Restores_example =
    resolve-Restores limits limits-IsUsable 0 0 4 1 (omega arith) 1 true 6 6 (omega arith)
      (λ e. absurd (cc e))
