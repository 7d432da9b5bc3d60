-- ===== src/Tests/Mutex.antt =====
-- Two threads at the mutex of libgomp/config/linux, and nested locks.
use libgomp.Prelude.{
  ℕ, ◌≡◌, refl, arith, none, some, ◌>>=◌, ◌⊎◌, List, [], ◌∷◌, Bool, true, false, ◌==◌,
  if◌then◌else◌,
}
use libgomp.Mutex.{waited, owner, cas_lock, set_waiting, first_loop, wait, unlock, move}
use libgomp.Mutex.System.{System, init, Reach, start, later, run}
use libgomp.Mutex.Invariant.{is_active}
use libgomp.Mutex.Safety.{mutual_exclusion, no_lost_wakeup}
use libgomp.Mutex.{locked}
use libgomp.Prelude.Int.{pos, negsuc, ◌+ℤ◌, ◌-ℤ◌}
use libgomp.NestLock.{
  NestLock30, NestLock25, gomp_init_nest_lock_30, gomp_set_nest_lock_30, gomp_unset_nest_lock_30,
  gomp_test_nest_lock_30, gomp_set_nest_lock_25, gomp_unset_nest_lock_25, gomp_test_nest_lock_25,
}
use libgomp.NestLock.Refine.{held, Stands30, Stands25, Agrees, Tests, Drops, nest_locks_lem}

program : Unit {0}
unfolding cas_lock set_waiting first_loop wait unlock move
program = tt

-- The threads that run, the last one first.
abbrev after : List (ℕ × Bool) → System
after [] = init
after ((i, timeout) ∷ before) = record {
  word = (move timeout (after before).word ((after before).pc i)).0;
  pc = λ j.
      if i == j
      then (move timeout (after before).word ((after before).pc i)).1
      else (after before).pc j;
}

after-Reach : (l : List (ℕ × Bool)) → Reach (after l)
after-Reach [] = start
after-Reach ((i, timeout) ∷ l) = later (after-Reach l) (run i timeout)

-- thread 0 takes the mutex; thread 1 fails, spins in vain, sets -1 and sleeps
abbrev contended : List (ℕ × Bool)
contended = (1, true) ∷ (1, true) ∷ (1, false) ∷ (0, false) ∷ []

mutual_exclusion_example : ◌≡◌ {A = ℕ} 0 0
unfolding program
mutual_exclusion_example = mutual_exclusion (after-Reach contended) 0 0 refl refl

no_lost_wakeup_example :
    (((after contended).word ≡ waited) × ((j : ℕ) × ((after contended).pc j ≡ owner)))
    ⊎ ((j : ℕ) × (is_active ((after contended).pc j) ≡ true))
unfolding program
no_lost_wakeup_example = no_lost_wakeup (after-Reach contended) 1 refl

locks : Unit {0}
unfolding gomp_set_nest_lock_30 gomp_unset_nest_lock_30 gomp_test_nest_lock_30 gomp_set_nest_lock_25
    gomp_unset_nest_lock_25 gomp_test_nest_lock_25 ◌+ℤ◌ ◌-ℤ◌
locks = tt

-- task 7 has set a lock twice, and so has thread 7
abbrev twice : NestLock30
twice = record { lock = locked; count = pos 2; owner = some 7 }

abbrev twice_25 : NestLock25
twice_25 = record { owner = 7; count = pos 2 }

set_again :
    (gomp_set_nest_lock_30 7 gomp_init_nest_lock_30 >>= λ l. gomp_set_nest_lock_30 7 l) ≡ some twice
unfolding locks
set_again = refl

-- a lock that nobody has is not freed again
unset_too_often : (gomp_unset_nest_lock_30 gomp_init_nest_lock_30).count ≡ negsuc 0
unfolding locks
unset_too_often = refl

nest_locks_lem_example :
    Agrees Stands30 (gomp_set_nest_lock_30 3 twice) none
    × Tests Stands30 (gomp_test_nest_lock_30 3 twice) (held 7 1) none
    × Agrees Stands25 (gomp_set_nest_lock_25 3 twice_25) none
    × Tests Stands25 (gomp_test_nest_lock_25 3 twice_25) (held 7 1) none
    × Drops twice twice_25 (held 7 1)
nest_locks_lem_example =
    nest_locks_lem 3 twice twice_25 (held 7 1) (λ e. omega arith) (omega arith)
      (λ e. cc e, refl, refl) (λ e. omega arith, refl, refl)
