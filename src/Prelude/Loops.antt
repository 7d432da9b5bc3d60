-- ===== src/Prelude/Loops.antt =====
-- Counted `for` loops over a state, whose body may fault, each with its invariant rule.
use Prim.Native.Nat.{ℕ, zero, suc, ◌+◌, ◌≤◌, ◌<◌}
use mathlib.Core.Path.{◌≡◌, refl, subst}
use mathlib.Core.Option.{Option, some}
use native.Mathlib.Omega.{arith}
use libgomp.Prelude.Access.{◌>>=◌, Returns, Returns-bind, bind_some}

module _ {ℓ} {S : Type ℓ} where
  -- for (k = i; k < i + n; k++) body
  unfoldable pub for_up : ℕ → ℕ → (ℕ → S → Option S) → S → Option S
  for_up zero i body s = some s
  for_up (suc n) i body s = body i s >>= λ s'. for_up n (i + 1) body s'

  pub for_up_zero : (i : ℕ) (body : ℕ → S → Option S) (s : S) → for_up 0 i body s ≡ some s
  unfolding for_up
  for_up_zero i body s = refl

  pub for_up_inv :
      (P : ℕ → S → Type 0) (body : ℕ → S → Option S) (lo hi : ℕ)
      → ((i : ℕ) (s : S) → lo ≤ i → i < hi → P i s → Returns (body i s) (P (i + 1)))
      → (n i : ℕ) (s : S) → lo ≤ i
      → i + n ≡ hi
      → P i s
      → Returns (for_up n i body s) (P hi)
  unfolding for_up
  for_up_inv P body lo hi keep zero i s l e p =
      let e' : i ≡ hi = omega arith in subst (λ k. P k s) e' p
  for_up_inv P body lo hi keep (suc n) i s l e p =
      Returns-bind (P (i + 1)) (P hi) (body i s) (λ s'. for_up n (i + 1) body s')
        (keep i s l (omega arith) p)
        (λ s' p'. for_up_inv P body lo hi keep n (i + 1) s' (omega arith) (omega arith) p')

  -- for (k = n; k > 0; k--) body
  unfoldable pub for_down : ℕ → (ℕ → S → Option S) → S → Option S
  for_down zero body s = some s
  for_down (suc k) body s = body (suc k) s >>= λ s'. for_down k body s'

  pub for_down_inv :
      (P : ℕ → S → Type 0) (body : ℕ → S → Option S) (hi : ℕ)
      → ((k : ℕ) (s : S) → k < hi → P (suc k) s → Returns (body (suc k) s) (P k))
      → (n : ℕ) (s : S) → n ≤ hi
      → P n s
      → Returns (for_down n body s) (P 0)
  unfolding for_down
  for_down_inv P body hi keep zero s l p = p
  for_down_inv P body hi keep (suc n) s l p =
      Returns-bind (P n) (P 0) (body (suc n) s) (λ s'. for_down n body s')
        (keep n s (omega arith) p) (λ s' p'. for_down_inv P body hi keep n s' (omega arith) p')

  pub for_down_none : (k : ℕ) (body : ℕ → S → Option S) (s : S) → k ≡ 0 → for_down k body s ≡ some s
  unfolding for_down
  for_down_none zero body s e = refl
  for_down_none (suc k) body s e = absurd (omega arith)

  pub for_down_once :
      (k : ℕ) (body : ℕ → S → Option S) (s : S) → k ≡ 1 → for_down k body s ≡ body 1 s
  unfolding for_down
  for_down_once zero body s e = absurd (omega arith)
  for_down_once (suc zero) body s e = bind_some (body 1 s)
  for_down_once (suc (suc k)) body s e = absurd (omega arith)
