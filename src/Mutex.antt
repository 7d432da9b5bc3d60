-- ===== src/Mutex.antt =====
-- The futex mutex of Linux (libgomp/config/linux/mutex.h, mutex.c and wait.h): what a thread does at
-- each atomic access.
pub mod System
pub mod Invariant
pub mod Safety
use libgomp.Prelude.{Bool, true, false, if◌then◌else◌}

-- The values 0, 1 and -1 of a `gomp_mutex_t`.
pub data Word : Type 0 where
  unlocked locked waited : Word

-- Where a thread stands: outside; in the first loop of `gomp_mutex_lock_slow`, with `oldval`; at the
-- exchange of the second loop; before `futex_wait`; asleep in it; in the critical section; before
-- `futex_wake`.
pub data Pc : Type 0 where
  idle : Pc
  first : Word → Pc
  second parking asleep owner waking : Pc

-- The compare-and-swap of 0 by 1, in `gomp_mutex_lock` and in the first loop.
unfoldable pub cas_lock : Word → Word × Pc
cas_lock unlocked = (locked, owner)
cas_lock m = (m, first m)

-- `oldval = __atomic_exchange_n (mutex, -1)`
unfoldable pub set_waiting : Word → Word × Pc
set_waiting unlocked = (waited, owner)
set_waiting m = (waited, parking)

-- A round of the first loop; `timeout` is what `do_spin` returns.
unfoldable pub first_loop : Bool → Word → Word → Word × Pc
first_loop timeout locked m = if timeout then set_waiting m else cas_lock m
first_loop timeout oldval m = (m, second)

-- `do_wait` and `futex_wait`: the kernel puts the thread to sleep only if the word is still -1. Both
-- can also return at once.
unfoldable pub wait : Bool → Word → Word × Pc
wait true waited = (waited, asleep)
wait timeout m = (m, second)

-- `gomp_mutex_unlock`
unfoldable pub unlock : Word → Word × Pc
unlock waited = (unlocked, waking)
unlock m = (unlocked, idle)

-- The next access of a thread that runs.
unfoldable pub move : Bool → Word → Pc → Word × Pc
move timeout m idle = cas_lock m
move timeout m (first oldval) = first_loop timeout oldval m
move timeout m second = set_waiting m
move timeout m parking = wait timeout m
move timeout m owner = unlock m
move timeout m asleep = (m, asleep)
move timeout m waking = (m, waking)
