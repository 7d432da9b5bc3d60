-- ===== src/Prelude/Family.antt =====
-- Families of values, one for each thread, and sums over the first threads.
use Prim.Native.Nat.{ℕ, zero, suc, ◌+◌, ◌≤◌, ◌<◌}
use mathlib.Core.Path.{◌≡◌, refl}
use native.Mathlib.Omega.{arith}
use native.Mathlib.Decide.{ℕ_discrete}
use libgomp.Prelude.Tests.{◌==◌, if◌then◌else◌}

abbrev pub update {ℓ} : {A : Type ℓ} → (ℕ → A) → ℕ → A → ℕ → A
update f i v j = if i == j then v else f j

abbrev pub total : ℕ → (ℕ → ℕ) → ℕ
total zero f = 0
total (suc n) f = total n f + f n

pub total-update_above : (n : ℕ) (f : ℕ → ℕ) (i v : ℕ) → n ≤ i → total n (update f i v) ≡ total n f
total-update_above zero f i v h = refl
total-update_above (suc n) f i v h = ground (arith, total-update_above n f i v)

pub total-update :
    (n : ℕ) (f : ℕ → ℕ) (i v : ℕ) → i < n → total n (update f i v) + f i ≡ total n f + v
total-update zero f i v h = absurd (omega arith)
total-update (suc n) f i v h = elim (ℕ_discrete i n) [
  | yes e ↦ ground (arith, total-update_above n f i v)
  | no ne ↦ ground (arith, total-update n f i v)
]

pub total_congr : (n : ℕ) (f g : ℕ → ℕ) → ((i : ℕ) → i < n → f i ≡ g i) → total n f ≡ total n g
total_congr zero f g h = refl
total_congr (suc n) f g h =
    omega (arith, total_congr n f g (λ i l. h i (omega arith)), h n (omega arith))

pub total-le : (n : ℕ) (f : ℕ → ℕ) → ((i : ℕ) → i < n → f i ≤ 1) → total n f ≤ n
total-le zero f h = omega arith
total-le (suc n) f h = omega (arith, total-le n f (λ i l. h i (omega arith)), h n (omega arith))

-- A sum of ones and zeros is full only if all are ones.
pub total_full :
    (n : ℕ) (f : ℕ → ℕ) → ((i : ℕ) → i < n → f i ≤ 1) → total n f ≡ n → (i : ℕ) → i < n → f i ≡ 1
total_full zero f h e i l = absurd (omega arith)
total_full (suc n) f h e i l = elim (ℕ_discrete i n) [
  | yes last ↦ rw last (omega (arith, total-le n f (λ k m. h k (omega arith)), h n (omega arith)))
  | no ne ↦
      total_full n f (λ k m. h k (omega arith))
        (omega (arith, total-le n f (λ k m. h k (omega arith)), h n (omega arith))) i (omega arith)
]

pub total_zero : (n : ℕ) (f : ℕ → ℕ) → ((i : ℕ) → i < n → f i ≡ 0) → total n f ≡ 0
total_zero zero f h = refl
total_zero (suc n) f h = omega (arith, total_zero n f (λ i l. h i (omega arith)), h n (omega arith))

pub total_ones : (n : ℕ) (f : ℕ → ℕ) → ((i : ℕ) → i < n → f i ≡ 1) → total n f ≡ n
total_ones zero f h = refl
total_ones (suc n) f h = omega (arith, total_ones n f (λ i l. h i (omega arith)), h n (omega arith))
