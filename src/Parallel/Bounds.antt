-- ===== src/Parallel/Bounds.antt =====
-- The number of threads of a parallel region: its bounds, and that its end gives them back.
use libgomp.Prelude.{
  ℕ, ◌+◌, ◌-◌, ◌%◌, ◌≤◌, ◌<◌, ◌≡◌, ◌≢◌, refl, sym, ◌⊎◌, inl, inr, List, [], ◌∷◌, Option, none, some,
  Bool, true, false, not, ◌&&◌, ◌||◌, arith, ◌==◌, eq→==, ne→==, ltb, leb, if◌then◌else◌,
  ℕ_discrete, Returns,
}
use mathlib.Core.Path.{subst}
use libgomp.Word.{word32, add64, sub64, add64_exact, sub64_exact}
use libgomp.Parallel.{
  Limits, gomp_dynamic_max_threads, max_threads, unlimited, room_for, reserve,
  gomp_resolve_num_threads, gomp_parallel_end,
}

dynamic_pos :
    (nthreads_var procs loadavg : ℕ) → 1 ≤ gomp_dynamic_max_threads nthreads_var procs loadavg
unfolding gomp_dynamic_max_threads
dynamic_pos nthreads_var procs loadavg = ground arith

-- Limits that allow a thread at all.
pub record IsUsable (icv : Limits) : Type 0 where
  pub some_threads : 1 ≤ icv.nthreads_var % word32
  pub some_room : 1 ≤ icv.thread_limit_var
  pub fits : icv.thread_limit_var < word32

-- What is asked for: by the clause, or by the environment.
abbrev pub requested : Limits → ℕ → ℕ
requested icv specified = if specified == 0 then icv.nthreads_var % word32 else specified

max_threads_bounds :
    (icv : Limits) (specified count dyn : ℕ)
    → IsUsable icv
    → 1 ≤ dyn
    → (1 ≤ max_threads icv specified count dyn)
      × (max_threads icv specified count dyn ≤ requested icv specified)
unfolding max_threads
max_threads_bounds icv specified count dyn u d = ground (arith, u.some_threads)

-- `threads_busy` counts the thread itself, and no more than the limit.
abbrev pub Busy : Limits → ℕ → Type 0
Busy icv b = (1 ≤ b) × (b ≤ icv.thread_limit_var)

abbrev pub BusyIfAny : Limits → Option ℕ → Type 0
BusyIfAny icv none = Unit {0}
BusyIfAny icv (some b) = Busy icv b

-- What the other threads of the pool leave in it, until a swap finds what its round has read.
abbrev pub Settles : Limits → ℕ → List (ℕ × ℕ) → Type 0
Settles icv busy [] = ⊥
Settles icv busy ((found, next) ∷ seen) = (found ≡ busy) ⊎ (Busy icv next × Settles icv next seen)

module _ (icv : Limits) (u : IsUsable icv) (wanted : ℕ) (some_wanted : 1 ≤ wanted)
    (wanted_fits : wanted < word32) where
  room_bounds :
      (busy : ℕ)
      → Busy icv busy
      → (1 ≤ room_for icv busy wanted)
        × (room_for icv busy wanted ≤ wanted)
        × (busy + room_for icv busy wanted ≤ icv.thread_limit_var + 1)
  unfolding room_for
  room_bounds busy b =
      rw
        (
          sub64_exact icv.thread_limit_var busy b.1 (omega (arith, u.fits)),
          add64_exact (icv.thread_limit_var - busy) 1 (omega (arith, u.fits)),
        )
        (ground (arith, u.fits))

  abbrev pub Reserved : ℕ × ℕ → Type 0
  Reserved (n, b) = (1 ≤ n) × (n ≤ wanted) × Busy icv b

  taken_exact :
      (busy : ℕ)
      → Busy icv busy
      → sub64 (add64 busy (room_for icv busy wanted)) 1 ≡ busy + room_for icv busy wanted - 1
  taken_exact busy b =
      let (lo, hi, top) = room_bounds busy b in
      rw (add64_exact busy (room_for icv busy wanted) (omega (arith, u.fits)))
        (sub64_exact (busy + room_for icv busy wanted) 1 (omega arith) (omega (arith, u.fits)))

  taken-Reserved :
      (busy : ℕ)
      → Busy icv busy
      → Reserved (room_for icv busy wanted, sub64 (add64 busy (room_for icv busy wanted)) 1)
  taken-Reserved busy b =
      let (lo, hi, top) = room_bounds busy b in
      (lo, hi, subst (λ z. Busy icv z) (sym (taken_exact busy b)) (omega arith, omega arith))

  reserve-Reserved :
      (busy : ℕ) (seen : List (ℕ × ℕ))
      → Busy icv busy
      → Settles icv busy seen
      → Returns (reserve icv wanted busy seen) Reserved
  unfolding reserve
  reserve-Reserved busy [] b s = absurd s
  reserve-Reserved busy ((found, next) ∷ seen) b s = elim (ℕ_discrete found busy) [
    | yes e ↦ rw (eq→== found busy e) (taken-Reserved busy b)
    | no ne ↦
        rw (ne→== found busy ne)
          (elim s [ inl e ↦ absurd (ne e) | inr (b', s') ↦ reserve-Reserved next seen b' s' ])
  ]

if-Returns :
    {A : Type 0} (P : A → Type 0) (b : Bool) (x y : Option A)
    → (b ≡ true → Returns x P)
    → (b ≡ false → Returns y P)
    → Returns (if b then x else y) P
if-Returns P true x y h k = h refl
if-Returns P false x y h k = k refl

-- At least one thread, no more than asked for, and `threads_busy` within its limit.
abbrev pub Granted : Limits → ℕ → ℕ × Option ℕ → Type 0
Granted icv specified (n, b) = (1 ≤ n) × (n ≤ requested icv specified) × BusyIfAny icv b

-- What the end of the region makes of `threads_busy`.
abbrev pub Restores : Limits → Bool → ℕ → ℕ × Option ℕ → Type 0
Restores icv in_team busy (n, b) =
    gomp_parallel_end icv n (record { active_level = 0; in_team = in_team; busy = b }) ≡ some busy

-- Each call that is not refused by the nesting: what the branches of the code have in common.
module _ (icv : Limits) (u : IsUsable icv) (specified count procs loadavg : ℕ)
    (clause : specified < word32) where
  abbrev dyn : ℕ
  dyn = gomp_dynamic_max_threads icv.nthreads_var procs loadavg

  abbrev wanted : ℕ
  wanted = max_threads icv specified count dyn

  wanted_bounds : (1 ≤ wanted) × (wanted ≤ requested icv specified)
  wanted_bounds =
      max_threads_bounds icv specified count dyn u (dynamic_pos icv.nthreads_var procs loadavg)

  wanted-lt : wanted < word32
  wanted-lt = ground (arith, wanted_bounds.1)

  Granted-one : (busy : ℕ) → Busy icv busy → Granted icv specified (1, some busy)
  Granted-one busy b = (omega arith, omega (arith, wanted_bounds), b)

  Granted-wanted : (busy : ℕ) → Busy icv busy → Granted icv specified (wanted, some busy)
  Granted-wanted busy b = (wanted_bounds.0, wanted_bounds.1, b)

  abbrev top : ℕ
  top = if ltb icv.thread_limit_var wanted then icv.thread_limit_var else wanted

  Granted-top : Granted icv specified (top, some top)
  Granted-top = ground (arith, wanted_bounds, u.some_room)

  reserved :
      (busy : ℕ) (seen : List (ℕ × ℕ))
      → Busy icv busy
      → Settles icv busy seen
      → Returns
          (elim (reserve icv wanted busy seen) as (λ x. Option (ℕ × Option ℕ)) [
            | none ↦ none
            | some (n, b) ↦ some (n, some b)
          ])
          (Granted icv specified)
  reserved busy seen b s =
      lift (reserve icv wanted busy seen)
        (reserve-Reserved icv u wanted wanted_bounds.0 wanted-lt busy seen b s)
    where
      lift :
          (r : Option (ℕ × ℕ))
          → Returns r (Reserved icv u wanted wanted_bounds.0 wanted-lt)
          → Returns
              (elim r as (λ x. Option (ℕ × Option ℕ)) [
                | none ↦ none
                | some (n, b) ↦ some (n, some b)
              ])
              (Granted icv specified)
      lift none h = h
      lift (some (n, b')) h = let (lo, hi, b) = h in (lo, omega (arith, wanted_bounds), b)

  -- Let the limits of the environment allow at least one thread, the pool of the calling thread
  -- count at least one busy thread and no more than the limit, and let the other threads keep it
  -- so until a compare-and-swap succeeds. Then `gomp_resolve_num_threads` returns, with at least
  -- one thread and no more than the clause, or without one the environment, asks for, and the
  -- busy threads are again at least one and within the limit.
  pub resolve-Granted :
      (active_level : ℕ) (in_team : Bool) (busy : ℕ) (seen : List (ℕ × ℕ))
      → Busy icv busy
      → Settles icv busy seen
      → Returns
          (gomp_resolve_num_threads icv specified count dyn seen
            (record { active_level = active_level; in_team = in_team; busy = some busy }))
          (Granted icv specified)
  unfolding gomp_resolve_num_threads
  resolve-Granted active_level in_team busy seen b s =
      if-Returns (Granted icv specified)
        (specified == 1
          || (leb 1 active_level && not icv.nest_var)
          || leb icv.max_active_levels_var active_level)
        (some (1, some busy)) _ (λ t. Granted-one busy b)
        (λ f.
          if-Returns (Granted icv specified) (icv.thread_limit_var == unlimited || wanted == 1)
            (some (wanted, some busy)) _ (λ t. Granted-wanted busy b)
            (λ f'.
              if-Returns (Granted icv specified) in_team _ (some (top, some top))
                (λ t. reserved busy seen b s) (λ f. Granted-top)))

  Restores-one : (in_team : Bool) (busy : ℕ) → Restores icv in_team busy (1, some busy)
  unfolding gomp_parallel_end
  Restores-one in_team busy = ground arith

  Restores-wanted :
      (in_team : Bool) (busy : ℕ)
      → (icv.thread_limit_var == unlimited || wanted == 1) ≡ true
      → Restores icv in_team busy (wanted, some busy)
  unfolding gomp_parallel_end
  Restores-wanted in_team busy t = ground arith

  abbrev room : ℕ → ℕ
  room busy = room_for icv busy wanted

  given_back :
      (busy : ℕ) → Busy icv busy → add64 (busy + room busy - 1) (sub64 1 (room busy)) ≡ busy
  unfolding add64 sub64
  given_back busy b =
      omega (arith, room_bounds icv u wanted wanted_bounds.0 wanted-lt busy b, u.fits)

  Restores-reserved :
      (busy : ℕ)
      → icv.thread_limit_var ≢ unlimited
      → Busy icv busy
      → Restores icv true busy (room busy, some (sub64 (add64 busy (room busy)) 1))
  unfolding gomp_parallel_end
  Restores-reserved busy limited b =
      rw
        (
          ne→== icv.thread_limit_var unlimited limited,
          taken_exact icv u wanted wanted_bounds.0 wanted-lt busy b,
        )
        (ground
          (arith, given_back busy b, room_bounds icv u wanted wanted_bounds.0 wanted-lt busy b))

  Restores-top : icv.thread_limit_var ≢ unlimited → Restores icv false 1 (top, some top)
  unfolding gomp_parallel_end
  Restores-top limited =
      rw (ne→== icv.thread_limit_var unlimited limited) (ground (arith, Granted-top))

  reserved_or_top :
      (in_team : Bool) (busy next : ℕ)
      → icv.thread_limit_var ≢ unlimited
      → Busy icv busy
      → (in_team ≡ false → busy ≡ 1)
      → Returns
          (if in_team
            then (elim (reserve icv wanted busy ((busy, next) ∷ []))
                as (λ x. Option (ℕ × Option ℕ)) [ none ↦ none | some (n, b) ↦ some (n, some b) ])
            else some (top, some top))
          (Restores icv in_team busy)
  unfolding reserve
  reserved_or_top true busy next limited b alone =
      rw (eq→== busy busy refl) (Restores-reserved busy limited b)
  reserved_or_top false busy next limited b alone =
      subst (λ z. Restores icv false z (top, some top)) (sym (alone refl)) (Restores-top limited)

  -- Let the limits of the environment allow at least one thread, and the pool of the calling
  -- thread count at least one busy thread and no more than the limit, just one if the thread is
  -- in no team; and let no other thread change that count before the first compare-and-swap. Then
  -- what `GOMP_parallel_end` makes of it, for a team of the size that `gomp_resolve_num_threads`
  -- returned, is the count from before.
  pub resolve-Restores :
      (active_level : ℕ) (in_team : Bool) (busy next : ℕ)
      → Busy icv busy
      → (in_team ≡ false → busy ≡ 1)
      → Returns
          (gomp_resolve_num_threads icv specified count dyn
            ((busy, next) ∷ [])
            (record { active_level = active_level; in_team = in_team; busy = some busy }))
          (Restores icv in_team busy)
  unfolding gomp_resolve_num_threads gomp_parallel_end
  resolve-Restores active_level in_team busy next b alone =
      if-Returns (Restores icv in_team busy)
        (specified == 1
          || (leb 1 active_level && not icv.nest_var)
          || leb icv.max_active_levels_var active_level)
        (some (1, some busy)) _ (λ t. Restores-one in_team busy)
        (λ f.
          if-Returns (Restores icv in_team busy) (icv.thread_limit_var == unlimited || wanted == 1)
            (some (wanted, some busy)) _ (λ t. Restores-wanted in_team busy t)
            (λ f'.
              let limited : icv.thread_limit_var ≢ unlimited =
                λ e. cc (f', eq→== icv.thread_limit_var unlimited e) in
              reserved_or_top in_team busy next limited b alone))
