-- ===== src/Binlpt/Owned.antt =====
-- The load that a task map (libgomp/loop.c) gives to a thread, and how it grows with a new chunk.
use libgomp.Prelude.{
  ℕ, zero, suc, ◌+◌, ◌≤◌, ◌<◌, ◌≡◌, refl, List, arith, ◌==◌, leb, ltb, ◌&&◌, if◌then◌else◌, ◌!◌, ap,
  dec_le,
}
use mathlib.Core.Path.{subst}
use native.Mathlib.Nat.{le_refl}
use libgomp.Chunks.{sum_to, weight, sum_to_mono}

-- The sum of `w x` over the iterations `x` below `k` that `map` gives to the thread `t`.
abbrev pub owned : (ℕ → ℕ) → List ℕ → ℕ → ℕ → ℕ
owned w map t zero = 0
owned w map t (suc k) = owned w map t k + (if map ! k == t then w k else 0)

-- The load of the thread `t` under the map `map` of `n` tasks.
abbrev pub thread_load : List ℕ → List ℕ → ℕ → ℕ → ℕ
thread_load tasks map n t = owned (λ x. tasks ! x) map t n

pub owned_congr :
    (w v : ℕ → ℕ) (map : List ℕ) (t k : ℕ)
    → ((x : ℕ) → x < k → w x ≡ v x)
    → owned w map t k ≡ owned v map t k
owned_congr w v map t zero h = refl
owned_congr w v map t (suc k) h =
    ground (arith, h k, owned_congr w v map t k (λ x p. h x (omega arith)))

pub owned-le :
    (w : ℕ → ℕ) (tasks map : List ℕ) (t k : ℕ)
    → ((x : ℕ) → w x ≤ tasks ! x)
    → owned w map t k ≤ sum_to tasks k
owned-le w tasks map t zero h = omega arith
owned-le w tasks map t (suc k) h = ground (arith, h k, owned-le w tasks map t k h)

-- The ghost weights after the chunk from `s` to before `e` is placed.
abbrev pub placed : List ℕ → ℕ → ℕ → (ℕ → ℕ) → ℕ → ℕ
placed tasks s e w x = if leb s x && ltb x e then tasks ! x else w x

-- The map `map'` is `map` with the chunk given to `tid`.
pub record Assigned (map : List ℕ) (s e tid : ℕ) (map' : List ℕ) : Type 0 where
  pub below : (x : ℕ) → x < s → map' ! x ≡ map ! x
  pub inside : (x : ℕ) → s ≤ x → x < e → map' ! x ≡ tid
  pub above : (x : ℕ) → e ≤ x → map' ! x ≡ map ! x

module _ (tasks map map' : List ℕ) (s e tid : ℕ) (a : Assigned map s e tid map') (w : ℕ → ℕ)
    (free : (x : ℕ) → s ≤ x → x < e → w x ≡ 0) (t : ℕ) where
  owned_below : (k : ℕ) → k ≤ s → owned (placed tasks s e w) map' t k ≡ owned w map t k
  owned_below zero h = refl
  owned_below (suc k) h = ground (arith, owned_below k (omega arith), a.below k)

  owned_inside :
      (k : ℕ)
      → s ≤ k
      → k ≤ e
      → owned (placed tasks s e w) map' t k
        ≡ owned w map t k + (if tid == t then weight tasks s k else 0)
  owned_inside zero h l = ground arith
  owned_inside (suc k) h l = elim (dec_le s k) [
    | yes p ↦ ground (
      arith,
      owned_inside k p (omega arith),
      a.inside k p (omega arith),
      free k p (omega arith),
      sum_to_mono tasks s k p,
    )
    | no out ↦
        let e' : suc k ≡ s = omega arith in
        ground (arith, ap (sum_to tasks) e', owned_below (suc k) (omega arith))
  ]

  owned_end :
      (k : ℕ)
      → s ≤ e
      → e ≡ k
      → owned (placed tasks s e w) map' t k
        ≡ owned w map t k + (if tid == t then weight tasks s e else 0)
  owned_end k h l =
      subst
        (λ z.
          owned (placed tasks s e w) map' t z
          ≡ owned w map t z + (if tid == t then weight tasks s e else 0))
        l (owned_inside e h (le_refl e))

  pub owned_above :
      (k : ℕ)
      → s ≤ e
      → e ≤ k
      → owned (placed tasks s e w) map' t k
        ≡ owned w map t k + (if tid == t then weight tasks s e else 0)
  owned_above zero h l = owned_end zero h (omega arith)
  owned_above (suc k) h l = elim (dec_le e k) [
    | yes old ↦ ground (arith, owned_above k h old, a.above k old)
    | no new ↦ owned_end (suc k) h (omega arith)
  ]
