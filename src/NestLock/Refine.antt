-- ===== src/NestLock/Refine.antt =====
-- Both forms of nested lock are one recursive lock.
use libgomp.Prelude.{
  ℕ, zero, suc, ◌-◌, ◌≡◌, ◌≢◌, refl, ap, ◌∙◌, ℕ_discrete, Option, none, some, arith, ◌==◌, eq→==,
  ne→==, if◌then◌else◌, ◌%◌, ◌^◌, ◌<◌, lt→ltb,
}
use libgomp.Prelude.Int.{ℤ, pos, ◌+ℤ◌, ◌-ℤ◌, int_laws}
use libgomp.Mutex.{Word, unlocked, locked, waited}
use libgomp.NestLock.{
  NestLock30, NestLock25, gomp_set_nest_lock_30, gomp_unset_nest_lock_30, gomp_test_nest_lock_30,
  gomp_set_nest_lock_25, gomp_unset_nest_lock_25, gomp_test_nest_lock_25, acquire, wrap_int,
  incremented, decremented,
}

-- A recursive lock: nobody has it, or one has it, so many times and once more.
pub data Held : Type 0 where
  nobody : Held
  held : ℕ → ℕ → Held

-- Another one waits.
abbrev pub take_lock : ℕ → Held → Option Held
take_lock me nobody = some (held me 0)
take_lock me (held owner more) = if owner == me then some (held owner (suc more)) else none

abbrev pub drop_lock : ℕ → ℕ → Held
drop_lock owner zero = nobody
drop_lock owner (suc more) = held owner more

-- How often the lock is held after a test, or 0.
abbrev pub depth : Option Held → ℕ
depth none = 0
depth (some nobody) = 0
depth (some (held owner more)) = suc more

abbrev pub Stands30 : NestLock30 → Held → Type 0
Stands30 l nobody = (l.lock ≡ unlocked) × (l.count ≡ pos 0) × (l.owner ≡ none)
Stands30 l (held owner more) =
    (l.lock ≢ unlocked) × (l.count ≡ pos (suc more)) × (l.owner ≡ some owner)

abbrev pub Stands25 : NestLock25 → Held → Type 0
Stands25 l nobody = (l.owner ≡ 0) × (l.count ≡ pos 0)
Stands25 l (held owner more) = (l.owner ≢ 0) × (l.owner ≡ owner) × (l.count ≡ pos (suc more))

-- The call waits where the recursive lock does, and stands for it otherwise.
abbrev pub Agrees : {A : Type 0} → (A → Held → Type 0) → Option A → Option Held → Type 0
Agrees R none none = Unit {0}
Agrees R none (some h) = ⊥
Agrees R (some l) none = ⊥
Agrees R (some l) (some h) = R l h

-- A test tells how often the lock is now held, and leaves a lock of another alone.
abbrev pub Tests : {A : Type 0} → (A → Held → Type 0) → ℤ × A → Held → Option Held → Type 0
Tests R (n, l) h none = (n ≡ pos 0) × R l h
Tests R (n, l) h (some h') = (n ≡ pos (depth (some h'))) × R l h'

-- A held lock can be set once more: the count is still below `INT_MAX`.
abbrev pub CanRise : Held → Type 0
CanRise nobody = Unit {0}
CanRise (held owner more) = suc more < 2 ^ 31 - 1

small_bits : (n : ℕ) → n < 2 ^ 31 → wrap_int (pos n) ≡ pos n
small_bits n h = let e : n % 2 ^ 32 ≡ n = omega arith in rw (e, lt→ltb n (2 ^ 31) h) refl

rise : (c : ℤ) (n : ℕ) → c ≡ pos n → n < 2 ^ 31 - 1 → incremented c ≡ pos (suc n)
rise c n e h =
    let sum : pos n +ℤ pos 1 ≡ pos (suc n) = omega int_laws in
    ap incremented e ∙ ap wrap_int sum ∙ small_bits (suc n) (omega arith)

fall : (c : ℤ) (n : ℕ) → c ≡ pos (suc n) → n < 2 ^ 31 - 1 → decremented c ≡ pos n
fall c n e h =
    let sum : pos (suc n) -ℤ pos 1 ≡ pos n = omega int_laws in
    ap decremented e ∙ ap wrap_int sum ∙ small_bits n (omega arith)

waits : (w : Word) → w ≢ unlocked → acquire w ≡ none
waits unlocked n = absurd (n refl)
waits locked n = refl
waits waited n = refl

set_30 :
    (me : ℕ) (w : Word) (c : ℤ) (o : Option ℕ) (h : Held)
    → CanRise h
    → Stands30 (record { lock = w; count = c; owner = o }) h
    → Agrees Stands30
        (gomp_set_nest_lock_30 me (record { lock = w; count = c; owner = o }))
        (take_lock me h)
unfolding gomp_set_nest_lock_30
set_30 me unlocked c none nobody r (a, b, e) = (λ q. cc q, rise c 0 b (omega arith), refl)
set_30 me locked c none nobody r (a, b, e) = absurd (cc a)
set_30 me waited c none nobody r (a, b, e) = absurd (cc a)
set_30 me w c (some o) nobody r (a, b, e) = absurd (cc e)
set_30 me w c none (held owner more) r (a, b, e) = absurd (cc e)
set_30 me w c (some o) (held owner more) r (a, b, e) =
    let same : o ≡ owner = cc e in
    elim (ℕ_discrete owner me) [
      | yes mine ↦ rw (eq→== o me (same ∙ mine), eq→== owner me mine) (a, rise c (suc more) b r, e)
      | no other ↦ rw (ne→== o me (λ z. other (omega arith)), ne→== owner me other, waits w a) tt
    ]

unset_30 :
    (l : NestLock30) (owner more : ℕ)
    → more < 2 ^ 31 - 1
    → Stands30 l (held owner more)
    → Stands30 (gomp_unset_nest_lock_30 l) (drop_lock owner more)
unfolding gomp_unset_nest_lock_30
unset_30 l owner zero r (a, b, e) = rw (fall l.count 0 b r) (refl, refl, refl)
unset_30 l owner (suc more) r (a, b, e) =
    rw (fall l.count (suc more) b r, ne→== (suc more) 0 (λ z. omega arith)) (a, refl, e)

test_30 :
    (me : ℕ) (w : Word) (c : ℤ) (o : Option ℕ) (h : Held)
    → CanRise h
    → Stands30 (record { lock = w; count = c; owner = o }) h
    → Tests Stands30
        (gomp_test_nest_lock_30 me (record { lock = w; count = c; owner = o }))
        h
        (take_lock me h)
unfolding gomp_test_nest_lock_30
test_30 me unlocked c none nobody r (a, b, e) = (refl, (λ q. cc q, refl, refl))
test_30 me locked c none nobody r (a, b, e) = absurd (cc a)
test_30 me waited c none nobody r (a, b, e) = absurd (cc a)
test_30 me w c (some o) nobody r (a, b, e) = absurd (cc e)
test_30 me w c none (held owner more) r (a, b, e) = absurd (cc e)
test_30 me w c (some o) (held owner more) r (a, b, e) =
    let same : o ≡ owner = cc e in
    elim (ℕ_discrete owner me) [
      | yes mine ↦
          rw (eq→== o me (same ∙ mine), eq→== owner me mine)
            (rise c (suc more) b r, (a, rise c (suc more) b r, e))
      | no other ↦
          rw (ne→== o me (λ z. other (omega arith)), ne→== owner me other, waits w a)
            (refl, (a, b, e))
    ]

set_25 :
    (tid : ℕ) (l : NestLock25) (h : Held)
    → tid ≢ 0
    → CanRise h
    → Stands25 l h
    → Agrees Stands25 (gomp_set_nest_lock_25 tid l) (take_lock tid h)
unfolding gomp_set_nest_lock_25
set_25 tid l nobody n r (a, b) = rw (eq→== l.owner 0 a) (n, refl, refl)
set_25 tid l (held owner more) n r (a, b, c) = rw (ne→== l.owner 0 a) (elim (ℕ_discrete owner tid) [
  | yes e ↦ rw (eq→== owner tid e, eq→== l.owner tid (b ∙ e)) (a, b, rise l.count (suc more) c r)
  | no ne ↦ rw (ne→== owner tid ne, ne→== l.owner tid (λ e. ne (omega arith))) tt
])

unset_25 :
    (l : NestLock25) (owner more : ℕ)
    → more < 2 ^ 31 - 1
    → Stands25 l (held owner more)
    → Stands25 (gomp_unset_nest_lock_25 l) (drop_lock owner more)
unfolding gomp_unset_nest_lock_25
unset_25 l owner zero r (a, b, c) = rw (fall l.count 0 c r) (refl, refl)
unset_25 l owner (suc more) r (a, b, c) =
    rw (fall l.count (suc more) c r, ne→== (suc more) 0 (λ z. omega arith)) (a, b, refl)

test_25 :
    (tid : ℕ) (l : NestLock25) (h : Held)
    → tid ≢ 0
    → CanRise h
    → Stands25 l h
    → Tests Stands25 (gomp_test_nest_lock_25 tid l) h (take_lock tid h)
unfolding gomp_test_nest_lock_25
test_25 tid l nobody n r (a, b) = rw (eq→== l.owner 0 a) (refl, (n, refl, refl))
test_25 tid l (held owner more) n r (a, b, c) =
    rw (ne→== l.owner 0 a) (elim (ℕ_discrete owner tid) [
      | yes e ↦
          rw (eq→== owner tid e, eq→== l.owner tid (b ∙ e))
            (rise l.count (suc more) c r, (a, b, rise l.count (suc more) c r))
      | no ne ↦ rw (ne→== owner tid ne, ne→== l.owner tid (λ e. ne (omega arith))) (refl, (a, b, c))
    ])

-- What `unset` leaves, of a lock that is held.
abbrev pub Drops : NestLock30 → NestLock25 → Held → Type 0
Drops l l' nobody = Unit {0}
Drops l l' (held owner more) =
    Stands30 (gomp_unset_nest_lock_30 l) (drop_lock owner more)
    × Stands25 (gomp_unset_nest_lock_25 l') (drop_lock owner more)

drops :
    (l : NestLock30) (l' : NestLock25) (h : Held)
    → CanRise h
    → Stands30 l h
    → Stands25 l' h
    → Drops l l' h
drops l l' nobody r s s' = tt
drops l l' (held owner more) r s s' =
    (unset_30 l owner more (omega arith) s, unset_25 l' owner more (omega arith) s')

-- Let a nested lock of either form stand for a recursive lock, which nobody has, or which one task
-- (or thread) has some times, fewer than 2 ^ 31 - 1; numbers of threads are not 0. To set it waits
-- exactly if another one has it, and to test it then returns 0 and changes nothing; otherwise both
-- leave it held once more, and the test returns how often. To unset it, if it is held, leaves it
-- held once less, or free.
pub nest_locks_lem :
    (me : ℕ) (l : NestLock30) (l' : NestLock25) (h : Held)
    → me ≢ 0
    → CanRise h
    → Stands30 l h
    → Stands25 l' h
    → Agrees Stands30 (gomp_set_nest_lock_30 me l) (take_lock me h)
      × Tests Stands30 (gomp_test_nest_lock_30 me l) h (take_lock me h)
      × Agrees Stands25 (gomp_set_nest_lock_25 me l') (take_lock me h)
      × Tests Stands25 (gomp_test_nest_lock_25 me l') h (take_lock me h)
      × Drops l l' h
nest_locks_lem me l l' h n r s s' = (
  set_30 me l.lock l.count l.owner h r s,
  test_30 me l.lock l.count l.owner h r s,
  set_25 me l' h n r s',
  test_25 me l' h n r s',
  drops l l' h r s s',
)
