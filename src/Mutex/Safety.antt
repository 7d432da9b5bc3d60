-- ===== src/Mutex/Safety.antt =====
-- Who is in the critical section of the mutex, and who wakes a sleeper.
use libgomp.Prelude.{ℕ, ◌≡◌, ◌⊎◌, inl, inr, true, arith}
use libgomp.Mutex.{waited, owner, asleep}
use libgomp.Mutex.System.{System, Reach}
use libgomp.Mutex.Invariant.{is_active, Reach-Inv}

-- Whatever the order in which any number of threads take and release the mutex, spin and time out,
-- sleep, are woken or wake by themselves: no two of them are in the critical section.
pub mutual_exclusion : {s : System} → Reach s → (i j : ℕ) → s.pc i ≡ owner → s.pc j ≡ owner → i ≡ j
mutual_exclusion r i j a b = (Reach-Inv r).unique i j a b

-- In each state that the threads reach, while one of them sleeps in the kernel, either the word is
-- -1 and some thread owns the mutex, so that its unlock will wake a sleeper, or some thread stands
-- in the second loop of `gomp_mutex_lock_slow`, at its exchange or before `futex_wait`, or before
-- `futex_wake`.
pub no_lost_wakeup :
    {s : System}
    → Reach s
    → (i : ℕ) → s.pc i ≡ asleep
    → ((s.word ≡ waited) × ((j : ℕ) × (s.pc j ≡ owner))) ⊎ ((j : ℕ) × (is_active (s.pc j) ≡ true))
no_lost_wakeup r i e = elim ((Reach-Inv r).heard i e) [
  | inl w ↦ inl (w, (Reach-Inv r).owned (ground arith))
  | inr other ↦ inr other
]
