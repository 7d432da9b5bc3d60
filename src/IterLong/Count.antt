-- ===== src/IterLong/Count.antt =====
-- The iterations of a loop over `long` (libgomp/iter.c): their number, and their values.
use libgomp.Prelude.{
  ℕ, zero, suc, ◌+◌, ◌-◌, ◌*◌, ◌/◌, ◌%◌, ◌^◌, ◌≤◌, ◌<◌, ◌≡◌, refl, sym, ap, ◌∙◌, ◌⊎◌, inl, inr, ◌↔◌,
  arith, if◌then◌else◌, lt→ltb, not-lt→ltb,
}
use mathlib.Core.Path.{subst, ap₂}
use native.Mathlib.Nat.{div-add-mod', div-le_self, mod-eq_of_lt}
use libgomp.Prelude.Int.{
  ℤ, pos, negsuc, pos_part, neg_part, neg_ℕ, int_laws, ◌≤ℤ◌, ◌+ℤ◌, ◌-ℤ◌, ◌*ℤ◌, ltb_ℤ, quot_ℤ,
  IsLong,
}
use libgomp.Word.{word64}
use libgomp.IterLong.{LongShare, to_unsigned, to_long, wrap_long, count_long, to_actual}
use libgomp.IterLong.Cas.{◌<ℤ◌}
use libgomp.IterUll.Static.{ceil_lem, mul_mono}

-- A loop whose end is not behind its start, and whose distance and step together fit in a `long`.
pub data IsLoop (ws : LongShare) : Type 0 where
  loop_up :
      pos 0 <ℤ ws.incr
      → ws.next ≤ℤ ws.end
      → ws.end -ℤ ws.next +ℤ ws.incr <ℤ pos (2 ^ 63)
      → IsLoop ws
  loop_down :
      ws.incr <ℤ pos 0
      → ws.end ≤ℤ ws.next
      → ws.next -ℤ ws.end -ℤ ws.incr <ℤ pos (2 ^ 63)
      → IsLoop ws

-- The distance, and the step, without their signs.
abbrev pub dist : ℤ → ℤ → ℕ
dist a b = pos_part (b -ℤ a) + neg_part (b -ℤ a)

abbrev pub size : ℤ → ℕ
size a = pos_part a + neg_part a

-- The value on the iteration `x`.
abbrev pub value_long : LongShare → ℕ → ℤ
value_long ws x = pos x *ℤ ws.incr +ℤ ws.next

pub scale_up : (x k : ℕ) → pos x *ℤ pos k ≡ pos (x * k)
unfolding ◌*ℤ◌
scale_up x k = ground arith

scale_down : (x k : ℕ) → pos x *ℤ negsuc k ≡ neg_ℕ (x * suc k)
unfolding ◌*ℤ◌
scale_down x k = ground arith

quot_up : (a k : ℕ) → to_unsigned (quot_ℤ (pos a) (pos k)) ≡ a / k % word64
quot_up a k = refl

quot_down : (a k : ℕ) → quot_ℤ (neg_ℕ a) (negsuc k) ≡ pos (a / suc k)
quot_down zero k = grind arith
quot_down (suc a) k = refl

-- The loop in numbers: the size of the step, the distance, and the direction.
pub record Shape (ws : LongShare) (k d : ℕ) : Type 0 where
  pub moves : 0 < k
  pub fits : d + k < 2 ^ 63
  pub sign :
      ((ws.incr ≡ pos k) × (ws.end ≡ ws.next +ℤ pos d))
      ⊎ ((ws.incr ≡ neg_ℕ k) × (ws.next ≡ ws.end +ℤ pos d))

pub neg-parts : (n : ℕ) → (pos_part (neg_ℕ n) ≡ 0) × (neg_part (neg_ℕ n) ≡ n)
neg-parts zero = (refl, refl)
neg-parts (suc n) = (refl, refl)

pub as_pos : (a : ℤ) → pos 0 ≤ℤ a → (a ≡ pos (size a)) × (neg_part a ≡ 0)
as_pos (pos n) h = (ap pos (omega arith), refl)
as_pos (negsuc n) h = absurd (omega arith)

pub as_neg : (a : ℤ) → a ≤ℤ pos 0 → (a ≡ neg_ℕ (size a)) × (pos_part a ≡ 0)
as_neg (pos n) h = let e : n ≡ 0 = omega arith in rw e (refl, refl)
as_neg (negsuc n) h = let e : size (negsuc n) ≡ suc n = omega arith in (sym (ap neg_ℕ e), refl)

pub loop-Shape : (ws : LongShare) → IsLoop ws → Shape ws (size ws.incr) (dist ws.next ws.end)
loop-Shape ws (loop_up s f t) =
    let (i, i0) = as_pos ws.incr (omega arith) in
    let (e, e0) = as_pos (ws.end -ℤ ws.next) (omega int_laws) in
    let back : ws.end ≡ ws.next +ℤ (ws.end -ℤ ws.next) = omega int_laws in
    record {
      moves = omega arith;
      fits = omega int_laws;
      sign = inl (i, back ∙ ap (λ z. ws.next +ℤ z) e);
    }
loop-Shape ws (loop_down s f t) =
    let (i, i0) = as_neg ws.incr (omega arith) in
    let (e, e0) = as_neg (ws.end -ℤ ws.next) (omega int_laws) in
    record { moves = omega arith; fits = omega int_laws; sign = inr (i, omega int_laws) }

-- `(end - next + s) / incr`
abbrev trip_count : ℤ → ℤ → ℤ → ℕ
trip_count end next incr =
    to_unsigned
      (quot_ℤ (end -ℤ next +ℤ (incr +ℤ (if ltb_ℤ (pos 0) incr then negsuc 0 else pos 1))) incr)

quotient_fits : (a k : ℕ) → a < word64 → a / k % word64 ≡ a / k
quotient_fits a k h = mod-eq_of_lt (omega (arith, div-le_self a k))

count_up :
    (next : ℤ) (k d : ℕ)
    → 0 < k
    → d + k < 2 ^ 63
    → trip_count (next +ℤ pos d) next (pos k) ≡ (d + k - 1) / k
count_up next k d m f =
    let sgn : (if ltb_ℤ (pos 0) (pos k) then negsuc 0 else pos 1) ≡ negsuc 0 = ground arith in
    let e : next +ℤ pos d -ℤ next +ℤ (pos k +ℤ negsuc 0) ≡ pos (d + k - 1) = omega int_laws in
    ap (λ z. to_unsigned (quot_ℤ z (pos k)))
      (ap (λ z. next +ℤ pos d -ℤ next +ℤ (pos k +ℤ z)) sgn ∙ e)
    ∙ quotient_fits (d + k - 1) k (omega arith)

count_down :
    (end : ℤ) (k d : ℕ)
    → d + suc k < 2 ^ 63
    → trip_count end (end +ℤ pos d) (negsuc k) ≡ (d + suc k - 1) / suc k
count_down end k d f =
    let sgn : (if ltb_ℤ (pos 0) (negsuc k) then negsuc 0 else pos 1) ≡ pos 1 = ground arith in
    let e : end -ℤ (end +ℤ pos d) +ℤ (negsuc k +ℤ pos 1) ≡ neg_ℕ (d + suc k - 1) =
      omega (int_laws, neg-parts (d + suc k - 1)) in
    ap (λ z. to_unsigned (quot_ℤ z (negsuc k)))
      (ap (λ z. end -ℤ (end +ℤ pos d) +ℤ (negsuc k +ℤ z)) sgn ∙ e ∙ refl)
    ∙ ap to_unsigned (quot_down (d + suc k - 1) k)
    ∙ quotient_fits (d + suc k - 1) (suc k) (omega arith)

count_of :
    (end next incr : ℤ) (k d : ℕ)
    → 0 < k
    → d + k < 2 ^ 63
    → incr ≡ neg_ℕ k
    → next ≡ end +ℤ pos d
    → trip_count end next incr ≡ (d + k - 1) / k
count_of end next incr zero d m f i e = absurd (omega arith)
count_of end next incr (suc k) d m f i e =
    ap₂ (λ n i. trip_count end n i) e i ∙ count_down end k d f

pub count-Shape : (ws : LongShare) (k d : ℕ) → Shape ws k d → count_long ws ≡ (d + k - 1) / k
unfolding count_long
count-Shape ws k d s = elim s.sign [
  | inl (i, e) ↦ ap₂ (λ e i. trip_count e ws.next i) e i ∙ count_up ws.next k d s.moves s.fits
  | inr (i, e) ↦ count_of ws.end ws.next ws.incr k d s.moves s.fits i e
]

pub count-le :
    (ws : LongShare) (k d : ℕ) → Shape ws k d → (x : ℕ) → (x < count_long ws) ↔ (x * k < d)
count-le ws k d s x =
    subst (λ n. (x < n) ↔ (x * k < d)) (sym (count-Shape ws k d s)) (ceil_lem d k x s.moves)

pub count-lt : (ws : LongShare) (k d : ℕ) → Shape ws k d → count_long ws < 2 ^ 63
count-lt ws k d s =
    subst (λ n. n < 2 ^ 63) (sym (count-Shape ws k d s))
      (omega (arith, div-le_self (d + k - 1) k, s.fits, s.moves))

-- Behind `s` or at it, and before `e`, on the way from the one to the other.
abbrev pub Within : ℤ → ℤ → ℤ → Type 0
Within s v e = ((s ≤ℤ v) × (v <ℤ e)) ⊎ ((v ≤ℤ s) × (e <ℤ v))

value_up :
    (ws : LongShare) (k : ℕ) → ws.incr ≡ pos k → (x : ℕ) → value_long ws x ≡ pos (x * k) +ℤ ws.next
value_up ws k i x = ap (λ z. z +ℤ ws.next) (ap (λ z. pos x *ℤ z) i ∙ scale_up x k)

pub scale_neg : (x k : ℕ) → pos x *ℤ neg_ℕ k ≡ neg_ℕ (x * k)
scale_neg x zero = let e : x * 0 ≡ 0 = omega arith in scale_up x 0 ∙ ap pos e ∙ sym (ap neg_ℕ e)
scale_neg x (suc k) = scale_down x k

value_down :
    (ws : LongShare) (k : ℕ)
    → ws.incr ≡ neg_ℕ k
    → (x : ℕ) → value_long ws x ≡ neg_ℕ (x * k) +ℤ ws.next
value_down ws k i x = ap (λ z. z +ℤ ws.next) (ap (λ z. pos x *ℤ z) i ∙ scale_neg x k)

-- Their parts, for `omega`.
up_parts :
    (ws : LongShare) (k : ℕ)
    → ws.incr ≡ pos k
    → (x : ℕ)
    → pos_part (value_long ws x) + neg_part ws.next
      ≡ neg_part (value_long ws x) + x * k + pos_part ws.next
up_parts ws k i x =
    subst (λ v. pos_part v + neg_part ws.next ≡ neg_part v + x * k + pos_part ws.next)
      (sym (value_up ws k i x)) (omega int_laws)

down_parts :
    (ws : LongShare) (k : ℕ)
    → ws.incr ≡ neg_ℕ k
    → (x : ℕ)
    → pos_part (value_long ws x) + neg_part ws.next + x * k
      ≡ neg_part (value_long ws x) + pos_part ws.next
down_parts ws k i x =
    subst (λ v. pos_part v + neg_part ws.next + x * k ≡ neg_part v + pos_part ws.next)
      (sym (value_down ws k i x)) (omega (int_laws, neg-parts (x * k)))

unsigned-long : (n : ℕ) → n < 2 ^ 63 → to_long n ≡ pos n
unsigned-long n h = rw (lt→ltb n (word64 / 2) (omega arith)) refl

pub wrap_long_exact : (z : ℤ) → IsLong z → wrap_long z ≡ z
unfolding wrap_long
wrap_long_exact (pos n) h =
    let e : n % word64 ≡ n = omega arith in rw (e, lt→ltb n (word64 / 2) (omega arith)) refl
wrap_long_exact (negsuc n) h =
    let e : n % word64 ≡ n = omega arith in
    rw (e, not-lt→ltb (word64 - 1 - n) (word64 / 2) (omega arith)) (ap negsuc (omega arith))

to_actual_exact :
    (ws : LongShare) (x : ℕ)
    → x < 2 ^ 63
    → IsLong (pos x *ℤ ws.incr)
    → IsLong (value_long ws x)
    → to_actual ws x ≡ value_long ws x
unfolding to_actual
to_actual_exact ws x h product sum =
    rw (unsigned-long x h, wrap_long_exact (pos x *ℤ ws.incr) product)
      (wrap_long_exact (value_long ws x) sum)

module _ (ws : LongShare) (k d : ℕ) (s : Shape ws k d) where
  pub value-Within :
      (a x b : ℕ) → a ≤ x → x < b → Within (value_long ws a) (value_long ws x) (value_long ws b)
  value-Within a x b p q = elim s.sign [
    | inl (i, e) ↦ inl (
      omega (arith, up_parts ws k i a, up_parts ws k i x, mul_mono a x k p),
      omega (arith, up_parts ws k i x, up_parts ws k i b, mul_mono (suc x) b k q, s.moves),
    )
    | inr (i, e) ↦ inr (
      omega (arith, down_parts ws k i a, down_parts ws k i x, mul_mono a x k p),
      omega (arith, down_parts ws k i x, down_parts ws k i b, mul_mono (suc x) b k q, s.moves),
    )
  ]

  before_bound : (x : ℕ) → Within ws.next (value_long ws x) ws.end → x * k < d
  before_bound x w = elim s.sign [
    | inl (i, e) ↦
        let w' : Within ws.next (value_long ws x) (ws.next +ℤ pos d) =
          subst (λ z. Within ws.next (value_long ws x) z) e w in
        omega (int_laws, up_parts ws k i x)
    | inr (i, e) ↦
        let back : pos_part ws.next + neg_part ws.end ≡ neg_part ws.next + pos_part ws.end + d =
          subst (λ z. pos_part z + neg_part ws.end ≡ neg_part z + pos_part ws.end + d) (sym e)
            (omega int_laws) in
        omega (int_laws, down_parts ws k i x)
  ]

  pub before-count : (x : ℕ) → Within ws.next (value_long ws x) ws.end → x < count_long ws
  before-count x w = (count-le ws k d s x).1 (before_bound x w)

  pub value_apart :
      (a b c e : ℕ) (v : ℤ)
      → a < b
      → b ≤ c
      → c < e
      → Within (value_long ws a) v (value_long ws b)
      → ¬ Within (value_long ws c) v (value_long ws e)
  value_apart a b c e v ab bc ce w w' = elim s.sign [
    | inl (i, q) ↦ omega (
      arith,
      up_parts ws k i a,
      up_parts ws k i b,
      up_parts ws k i c,
      up_parts ws k i e,
      mul_mono a b k (omega arith),
      mul_mono b c k bc,
      mul_mono c e k (omega arith),
    )
    | inr (i, q) ↦ omega (
      arith,
      down_parts ws k i a,
      down_parts ws k i b,
      down_parts ws k i c,
      down_parts ws k i e,
      mul_mono a b k (omega arith),
      mul_mono b c k bc,
      mul_mono c e k (omega arith),
    )
  ]

  count_reach : (x : ℕ) → x ≤ count_long ws → x * k ≤ d + k - 1
  count_reach x h =
      let h' : x ≤ (d + k - 1) / k = subst (λ n. x ≤ n) (count-Shape ws k d s) h in
      omega (arith, mul_mono x ((d + k - 1) / k) k h', div-add-mod' (d + k - 1) k)

  product-IsLong : (x : ℕ) → x ≤ count_long ws → IsLong (pos x *ℤ ws.incr)
  product-IsLong x h = elim s.sign [
    | inl (i, e) ↦
        subst (λ z. IsLong z) (sym (ap (λ z. pos x *ℤ z) i ∙ scale_up x k))
          (omega (arith, count_reach x h, s.fits), omega (arith, count_reach x h, s.fits))
    | inr (i, e) ↦
        subst (λ z. IsLong z) (sym (ap (λ z. pos x *ℤ z) i ∙ scale_neg x k))
          (
            omega (arith, neg-parts (x * k), count_reach x h, s.fits),
            omega (arith, neg-parts (x * k), count_reach x h, s.fits),
          )
  ]

  -- The end of the loop plus the step, in the distance and the step of `Shape`.
  past_up :
      ws.incr ≡ pos k
      → ws.end ≡ ws.next +ℤ pos d
      → pos_part (ws.end +ℤ ws.incr) + neg_part ws.next
        ≡ neg_part (ws.end +ℤ ws.incr) + pos_part ws.next + d + k
  past_up i e =
      subst (λ z. pos_part z + neg_part ws.next ≡ neg_part z + pos_part ws.next + d + k)
        (sym (ap₂ (λ a b. a +ℤ b) e i)) (omega int_laws)

  past_down :
      ws.incr ≡ neg_ℕ k
      → ws.next ≡ ws.end +ℤ pos d
      → pos_part (ws.end +ℤ ws.incr) + neg_part ws.next + d + k
        ≡ neg_part (ws.end +ℤ ws.incr) + pos_part ws.next
  past_down i e =
      subst
        (λ z.
          pos_part (ws.end +ℤ z) + neg_part ws.next + d + k
          ≡ neg_part (ws.end +ℤ z) + pos_part ws.next)
        (sym i)
        (subst
          (λ z.
            pos_part (ws.end +ℤ neg_ℕ k) + neg_part z + d + k
            ≡ neg_part (ws.end +ℤ neg_ℕ k) + pos_part z)
          (sym e) (omega (int_laws, neg-parts k)))

  value-IsLong :
      (x : ℕ)
      → x ≤ count_long ws
      → IsLong ws.next
      → IsLong (ws.end +ℤ ws.incr)
      → IsLong (value_long ws x)
  value-IsLong x h f g = elim s.sign [
    | inl (i, e) ↦ (
      omega (arith, up_parts ws k i x, f.0),
      omega (arith, up_parts ws k i x, past_up i e, count_reach x h, s.moves, g.1),
    )
    | inr (i, e) ↦ (
      omega (arith, down_parts ws k i x, past_down i e, count_reach x h, s.moves, g.0),
      omega (arith, down_parts ws k i x, f.1),
    )
  ]

  pub to_actual_lem :
      (x : ℕ)
      → x ≤ count_long ws
      → IsLong ws.next
      → IsLong (ws.end +ℤ ws.incr)
      → to_actual ws x ≡ value_long ws x
  to_actual_lem x h f g =
      to_actual_exact ws x (omega (arith, h, count-lt ws k d s)) (product-IsLong x h)
        (value-IsLong x h f g)
