-- ===== src/IterLong/Wrap.antt =====
-- `start + q * ws->incr` of the guided schedule (libgomp/iter.c): its `unsigned long` sum is the true one.
use libgomp.Prelude.{
  ℕ, zero, suc, ◌+◌, ◌-◌, ◌*◌, ◌/◌, ◌%◌, ◌^◌, ◌≤◌, ◌<◌, ◌≡◌, refl, sym, ap, ◌∙◌, ◌⊎◌, inl, inr,
  arith, lt→ltb, not-lt→ltb, dec_lt,
}
use mathlib.Core.Path.{subst}
use libgomp.Prelude.Int.{ℤ, pos, negsuc, neg_ℕ, pos_part, neg_part, int_laws, ◌+ℤ◌, ◌≤ℤ◌, IsLong}
use libgomp.Word.{word64, add64, mul64}
use libgomp.IterUll.Static.{mul_mono}
use libgomp.IterLong.{to_unsigned, to_long}
use libgomp.IterLong.Cas.{◌<ℤ◌, Toward}
use libgomp.IterLong.Count.{neg-parts}

mul_up : (q k : ℕ) → k < 2 ^ 63 → q * k < 2 ^ 63 → mul64 q (to_unsigned (pos k)) ≡ q * k
unfolding mul64
mul_up q k h f = let e : k % word64 ≡ k = omega arith in rw e (omega arith)

-- -y, as an `unsigned long`
abbrev minus : ℕ → ℕ
minus y = (word64 - y) % word64

distribute : (q a b : ℕ) → q * a + q * b ≡ q * (a + b)
distribute q a b = grind arith

product : (q k : ℕ) → k < word64 → q * (word64 - 1 - k) + q * suc k ≡ q * word64
product q k h =
    let e : word64 - 1 - k + suc k ≡ word64 = omega arith in
    distribute q (word64 - 1 - k) (suc k) ∙ ap (λ z. q * z) e

mul_down :
    (q k : ℕ)
    → suc k < 2 ^ 63
    → q * suc k < 2 ^ 63
    → mul64 q (to_unsigned (negsuc k)) ≡ minus (q * suc k)
unfolding mul64
mul_down q k h f = let e : k % word64 ≡ k = omega arith in rw e (omega (arith, product q k))

mul_neg :
    (q k : ℕ)
    → 0 < k
    → k < 2 ^ 63
    → q * k < 2 ^ 63
    → mul64 q (to_unsigned (neg_ℕ k)) ≡ minus (q * k)
mul_neg q zero m h f = absurd (omega arith)
mul_neg q (suc k) m h f = mul_down q k h f

long-parts :
    (x : ℕ)
    → x < word64
    → ((x < 2 ^ 63) × (pos_part (to_long x) ≡ x) × (neg_part (to_long x) ≡ 0))
      ⊎ ((2 ^ 63 ≤ x) × (pos_part (to_long x) ≡ 0) × (neg_part (to_long x) ≡ word64 - x))
long-parts x h = elim (dec_lt x (word64 / 2)) [
  | yes l ↦ inl (l, rw (lt→ltb x (word64 / 2) l) refl, rw (lt→ltb x (word64 / 2) l) refl)
  | no g ↦ inr (
    omega arith,
    rw (not-lt→ltb x (word64 / 2) g) refl,
    rw (not-lt→ltb x (word64 / 2) g) (omega arith),
  )
]

-- Where the true sum fits in a `long`, the wrapped one is it.
add_up :
    (z : ℤ) (y : ℕ)
    → negsuc (2 ^ 63 - 1) ≤ℤ z
    → y < 2 ^ 63
    → z +ℤ pos y <ℤ pos (2 ^ 63)
    → to_long (add64 (to_unsigned z) y) ≡ z +ℤ pos y
unfolding add64
add_up (pos n) y lo f hi = omega (int_laws, long-parts ((n % word64 + y) % word64))
add_up (negsuc n) y lo f hi = omega (int_laws, long-parts ((word64 - 1 - n % word64 + y) % word64))

add_down :
    (z : ℤ) (y : ℕ)
    → z <ℤ pos (2 ^ 63)
    → y < 2 ^ 63
    → negsuc (2 ^ 63 - 1) ≤ℤ z +ℤ neg_ℕ y
    → to_long (add64 (to_unsigned z) (minus y)) ≡ z +ℤ neg_ℕ y
unfolding add64
add_down (pos n) y lo f hi =
    omega (int_laws, neg-parts y, long-parts ((n % word64 + minus y) % word64))
add_down (negsuc n) y lo f hi =
    omega (int_laws, neg-parts y, long-parts ((word64 - 1 - n % word64 + minus y) % word64))

-- `start + q * ws->incr`
abbrev pub step_on : ℤ → ℕ → ℤ → ℤ
step_on next q incr = to_long (add64 (to_unsigned next) (mul64 q (to_unsigned incr)))

module _ (next end : ℤ) (k d q : ℕ) (small : d < 2 ^ 63) (some_share : 0 < q) (step : 0 < k)
    (inside : q * k ≤ d) (next_fits : IsLong next) (end_fits : IsLong end) where
  moved : k ≤ q * k
  moved = omega (arith, mul_mono 1 q k some_share)

  pub share_up :
      end ≡ next +ℤ pos d
      → (step_on next q (pos k) ≡ next +ℤ pos (q * k)) × Toward next (step_on next q (pos k)) end
  share_up e =
      let reach : (next +ℤ pos (q * k) ≤ℤ end) =
        subst (λ z. next +ℤ pos (q * k) ≤ℤ z) (sym e) (omega int_laws) in
      let run : step_on next q (pos k) ≡ next +ℤ pos (q * k) =
        ap (λ y. to_long (add64 (to_unsigned next) y))
          (mul_up q k (omega (arith, moved)) (omega arith))
        ∙ add_up next (q * k) next_fits.0 (omega arith) (omega (arith, end_fits.1)) in
      (run, subst (λ z. Toward next z end) (sym run) (inl (omega (int_laws, moved), reach)))

  pub share_down :
      next ≡ end +ℤ pos d
      → (step_on next q (neg_ℕ k) ≡ next +ℤ neg_ℕ (q * k))
        × Toward next (step_on next q (neg_ℕ k)) end
  share_down e =
      let back : pos_part next + neg_part end ≡ neg_part next + pos_part end + d =
        subst (λ z. pos_part z + neg_part end ≡ neg_part z + pos_part end + d) (sym e)
          (omega int_laws) in
      let reach : (end ≤ℤ next +ℤ neg_ℕ (q * k)) = omega (int_laws, neg-parts (q * k)) in
      let run : step_on next q (neg_ℕ k) ≡ next +ℤ neg_ℕ (q * k) =
        ap (λ y. to_long (add64 (to_unsigned next) y))
          (mul_neg q k step (omega (arith, moved)) (omega arith))
        ∙ add_down next (q * k) next_fits.1 (omega arith) (omega (arith, end_fits.0)) in
      (
        run,
        subst (λ z. Toward next z end) (sym run)
            (inr (omega (int_laws, neg-parts (q * k), moved), reach)),
      )
