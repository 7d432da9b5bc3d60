-- ===== src/Chunks/Sums.antt =====
-- `compute_cummulativesum` (libgomp/loop.c) and the sums that it tabulates.
use libgomp.Prelude.{
  ℕ, zero, suc, ◌+◌, ◌-◌, ◌≤◌, ◌<◌, ◌≡◌, refl, List, Option, arith, dec_le, length, get_elem?,
  replicate, length-replicate, set, length-set, get_or-set, write, write_lem, read_lem, ◌>>=◌,
  Returns, ◌!◌, for_up, for_up_inv, ap,
}
use native.Mathlib.Nat.{le_of_eq}
use native.Mathlib.Numerals.{add-one}
use libgomp.Word.{word32, add32, add32_exact}

-- The sum of the first `k` cells.
abbrev pub sum_to : List ℕ → ℕ → ℕ
sum_to a zero = 0
sum_to a (suc k) = sum_to a k + a ! k

-- The sum of the cells from `s` to before `e`.
abbrev pub weight : List ℕ → ℕ → ℕ → ℕ
weight a s e = sum_to a e - sum_to a s

pub sum_to_next : (a : List ℕ) (k : ℕ) → sum_to a (k + 1) ≡ sum_to a k + a ! k
sum_to_next a k = rw (add-one k)

pub sum_to_plus : (a : List ℕ) (i m : ℕ) → sum_to a (i + (m + 1)) ≡ sum_to a (i + m) + a ! (i + m)
sum_to_plus a i m = let e : i + (m + 1) ≡ suc (i + m) = omega arith in rw e

pub sum_to_mono : (a : List ℕ) (i j : ℕ) → i ≤ j → sum_to a i ≤ sum_to a j
sum_to_mono a i zero h = let e : i ≡ 0 = omega arith in le_of_eq (ap (sum_to a) e)
sum_to_mono a i (suc j) h = elim (dec_le i j) [
  | yes le ↦ omega (arith, sum_to_mono a i j le)
  | no last ↦ let e : i ≡ suc j = omega arith in le_of_eq (ap (sum_to a) e)
]

pub sum_to_pred : (a : List ℕ) (k : ℕ) → 1 ≤ k → sum_to a k ≡ sum_to a (k - 1) + a ! (k - 1)
sum_to_pred a zero h = absurd (omega arith)
sum_to_pred a (suc k) h = let e : suc k - 1 ≡ k = omega arith in rw e

-- The body of the loop: `sum[i] = sum[i - 1] + a[i - 1]`.
unfoldable pub cummulativesum_step : List ℕ → ℕ → List ℕ → Option (List ℕ)
cummulativesum_step a i sum = do
  x ← get_elem? sum (i - 1)
  y ← get_elem? a (i - 1)
  write sum i (add32 x y)

-- `malloc` leaves the cells with values of its own, here all `junk`.
unfoldable pub compute_cummulativesum : ℕ → List ℕ → ℕ → Option (List ℕ)
compute_cummulativesum junk a n = do
  sum ← write (replicate n junk) 0 0
  for_up (n - 1) 1 (cummulativesum_step a) sum

module _ (junk : ℕ) (a : List ℕ) (n : ℕ) (some_cell : 0 < n) (fits : n ≤ length a)
    (small : sum_to a n < word32) where
  -- The cells before `i` hold the sums.
  abbrev Summed : ℕ → List ℕ → Type 0
  Summed i sum = (length sum ≡ n) × ((k : ℕ) → k < i → sum ! k ≡ sum_to a k)

  step-Summed :
      (i : ℕ) (sum : List ℕ)
      → 1 ≤ i
      → i < n
      → Summed i sum
      → Returns (cummulativesum_step a i sum) (Summed (i + 1))
  unfolding cummulativesum_step
  step-Summed i sum l u p =
      rw
        (
          read_lem sum (i - 1) 0 (omega (arith, p.0)),
          read_lem a (i - 1) 0 (omega arith),
          write_lem sum i (add32 (sum ! (i - 1)) (a ! (i - 1))) (omega (arith, p.0)),
        )
        (
          cc (length-set sum i (add32 (sum ! (i - 1)) (a ! (i - 1))), p.0),
          λ k h. ground (
            arith,
            p.0,
            get_or-set sum i k (add32 (sum ! (i - 1)) (a ! (i - 1))) 0,
            p.1 k,
            p.1 (i - 1),
            add32_exact (sum ! (i - 1)) (a ! (i - 1)),
            sum_to_pred a i l,
            sum_to_mono a i n,
          ),
        )

  -- For at least one cell, an array with that many, and a sum below 2 ^ 32,
  -- `compute_cummulativesum` returns the sums of all that stands before each cell.
  pub compute_cummulativesum_lem :
      Returns
        (compute_cummulativesum junk a n)
        (λ sum. (length sum ≡ n) × ((k : ℕ) → k < n → sum ! k ≡ sum_to a k))
  unfolding compute_cummulativesum
  compute_cummulativesum_lem =
      rw (write_lem (replicate n junk) 0 0 (omega (arith, length-replicate n junk))) (
        for_up_inv Summed (cummulativesum_step a) 1 n step-Summed (n - 1) 1
          (set (replicate n junk) 0 0) (omega arith) (omega arith)
          (
            cc (length-set (replicate n junk) 0 0, length-replicate n junk),
            λ k h. ground (arith, get_or-set (replicate n junk) 0 k 0 0, length-replicate n junk),
          ))

-- A write at or above the end of a sum leaves it.
pub sum_to-set_above :
    (a : List ℕ) (k v c : ℕ) → c ≤ k → k < length a → sum_to (set a k v) c ≡ sum_to a c
sum_to-set_above a k v zero h lt = refl
sum_to-set_above a k v (suc c) h lt =
    ground (arith, sum_to-set_above a k v c (omega arith) lt, get_or-set a k c v 0 lt)

pub sum_to_zeros :
    (a : List ℕ) (k n : ℕ) → k ≤ n → ((c : ℕ) → k ≤ c → c < n → a ! c ≡ 0) → sum_to a n ≡ sum_to a k
sum_to_zeros a k zero h z = let e : 0 ≡ k = omega arith in ap (sum_to a) e
sum_to_zeros a k (suc n) h z = elim (dec_le k n) [
  | yes le ↦
      omega (arith, z n le (omega arith), sum_to_zeros a k n le (λ c p q. z c p (omega arith)))
  | no last ↦ let e : suc n ≡ k = omega arith in ap (sum_to a) e
]
