-- ===== src/NestLock.antt =====
-- Nested locks (libgomp/config/linux/lock.c), with OpenMP 3.0, where a task owns the lock, and with
-- OpenMP 2.5, where a thread does. A call is one step; it waits while another owns the lock. The
-- `int` that counts wraps, where C leaves overflow undefined.
pub mod Refine
use libgomp.Prelude.{
  ℕ, ◌+◌, ◌-◌, ◌%◌, ◌^◌, ltb, Bool, true, false, Option, none, some, ◌==◌, if◌then◌else◌, ◌>>=◌,
}
use libgomp.Prelude.Int.{ℤ, pos, negsuc, ◌+ℤ◌, ◌-ℤ◌}
use libgomp.Mutex.{Word, unlocked, locked, waited}

-- The `int` of 32 bits with the same value modulo 2 ^ 32.
abbrev pub int_of_bits : ℕ → ℤ
int_of_bits n = if ltb n (2 ^ 31) then pos n else negsuc (2 ^ 32 - 1 - n)

abbrev pub wrap_int : ℤ → ℤ
wrap_int (pos n) = int_of_bits (n % 2 ^ 32)
wrap_int (negsuc n) = int_of_bits (2 ^ 32 - 1 - n % 2 ^ 32)

abbrev pub incremented : ℤ → ℤ
incremented count = wrap_int (count +ℤ pos 1)

abbrev pub decremented : ℤ → ℤ
decremented count = wrap_int (count -ℤ pos 1)

abbrev pub is_zero : ℤ → Bool
is_zero (pos n) = n == 0
is_zero (negsuc n) = false

-- `omp_nest_lock_t`. Tasks are numbers.
pub record NestLock30 : Type 0 where
  pub lock : Word
  pub count : ℤ
  pub owner : Option ℕ

abbrev pub gomp_init_nest_lock_30 : NestLock30
gomp_init_nest_lock_30 = record { lock = unlocked; count = pos 0; owner = none }

abbrev pub owned_by : Option ℕ → ℕ → Bool
owned_by none me = false
owned_by (some owner) me = owner == me

-- `gomp_mutex_lock`, or the compare-and-swap of 0 by 1, if it succeeds at once.
abbrev pub acquire : Word → Option Word
acquire unlocked = some locked
acquire locked = none
acquire waited = none

-- `none`: the task waits.
unfoldable pub gomp_set_nest_lock_30 : ℕ → NestLock30 → Option NestLock30
gomp_set_nest_lock_30 me l =
    if owned_by l.owner me then some (record l { count = incremented l.count }) else (do
      w ← acquire l.lock
      some (record { lock = w; count = incremented l.count; owner = some me }))

unfoldable pub gomp_unset_nest_lock_30 : NestLock30 → NestLock30
gomp_unset_nest_lock_30 l =
    if is_zero (decremented l.count)
    then record { lock = unlocked; count = decremented l.count; owner = none }
    else record l { count = decremented l.count }

-- What is returned, and the lock.
unfoldable pub gomp_test_nest_lock_30 : ℕ → NestLock30 → ℤ × NestLock30
gomp_test_nest_lock_30 me l =
    if owned_by l.owner me
    then (incremented l.count, record l { count = incremented l.count })
    else (elim (acquire l.lock) [
      | none ↦ (pos 0, l)
      | some w ↦ (pos 1, record { lock = w; count = pos 1; owner = some me })
    ])

-- `omp_nest_lock_25_t`: the owner is the number of a thread, or 0.
pub record NestLock25 : Type 0 where
  pub owner : ℕ
  pub count : ℤ

abbrev pub gomp_init_nest_lock_25 : NestLock25
gomp_init_nest_lock_25 = record { owner = 0; count = pos 0 }

unfoldable pub gomp_set_nest_lock_25 : ℕ → NestLock25 → Option NestLock25
gomp_set_nest_lock_25 tid l =
    if l.owner == 0
    then some (record { owner = tid; count = pos 1 })
    else if l.owner == tid
    then some (record l { count = incremented l.count })
    else none

unfoldable pub gomp_unset_nest_lock_25 : NestLock25 → NestLock25
gomp_unset_nest_lock_25 l =
    if is_zero (decremented l.count)
    then record { owner = 0; count = decremented l.count }
    else record l { count = decremented l.count }

unfoldable pub gomp_test_nest_lock_25 : ℕ → NestLock25 → ℤ × NestLock25
gomp_test_nest_lock_25 tid l =
    if l.owner == 0
    then (pos 1, record { owner = tid; count = pos 1 })
    else if l.owner == tid
    then (incremented l.count, record l { count = incremented l.count })
    else (pos 0, l)
