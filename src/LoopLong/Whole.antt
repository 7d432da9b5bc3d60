-- ===== src/LoopLong/Whole.antt =====
-- Whole loops over `long` (libgomp/loop.c), from `gomp_loop_init` to the last call, up and down.
use libgomp.Prelude.{
  ℕ, suc, ◌+◌, ◌-◌, ◌*◌, ◌^◌, ◌≡◌, refl, ◌⊎◌, inl, inr, sym, ap, ◌∙◌, Option, arith, Returns,
  dec_lt, if◌then◌else◌, ◌&&◌, ◌||◌, Bool, true, false, lt→ltb, not-lt→ltb,
}
use mathlib.Core.Path.{subst}
use libgomp.Prelude.Int.{
  ℤ, pos, negsuc, pos_part, neg_part, int_laws, ltb_ℤ, ◌+ℤ◌, ◌-ℤ◌, ◌*ℤ◌, ◌≤ℤ◌, IsLong,
}
use libgomp.IterUll.Static.{mul_mono}
use libgomp.IterLong.{wrap_long, gomp_iter_dynamic_next_locked, gomp_iter_guided_next_locked}
use libgomp.IterLong.Cas.{◌<ℤ◌}
use libgomp.IterLong.Count.{
  loop_up, loop_down, dist, neg-parts, scale_up, scale_neg, wrap_long_exact,
}
use libgomp.IterLong.Tiles.{TilesByLong, take_all_long}
use libgomp.IterLong.Guided.{IsGuidedLong, guided_long-TilesLong}
use libgomp.IterLong.Dynamic.{IsSteppedLong, dynamic_up, dynamic_down, dynamic_long-TilesLong}
use libgomp.LoopUll.Init.{dynamic, guided, is_dynamic}
use libgomp.LoopLong.Init.{LongArgs, long_end, init_long}

-- A step that is not zero, with distances that fit in a `long`.
pub data Counts (a : LongArgs) : Type 0 where
  counts_up :
      pos 0 <ℤ a.incr
      → a.incr <ℤ pos (2 ^ 63)
      → a.end -ℤ a.start +ℤ a.incr <ℤ pos (2 ^ 63)
      → Counts a
  counts_down :
      a.incr <ℤ pos 0
      → negsuc (2 ^ 63 - 1) <ℤ a.incr
      → a.start -ℤ a.end -ℤ a.incr <ℤ pos (2 ^ 63)
      → Counts a

pub record IsLongLoop (a : LongArgs) : Type 0 where
  pub counts : Counts a
  pub start_fits : IsLong a.start
  pub end_fits : IsLong a.end
  pub some_chunk : pos 0 <ℤ a.chunk_size
  pub chunk_fits : a.chunk_size <ℤ pos (2 ^ 63)
  pub scaled_fits : IsLong (a.chunk_size *ℤ a.incr)

first_test :
    (p q r s : Bool) (x y : ℤ)
    → p ≡ true
    → r ≡ false
    → (if (p && q) || (r && s) then x else y) ≡ (if q then x else y)
first_test true true r s x y e h = refl
first_test true false true s x y e h = absurd (cc h)
first_test true false false s x y e h = refl
first_test false q r s x y e h = absurd (cc e)

second_test :
    (p q r s : Bool) (x y : ℤ)
    → p ≡ false
    → r ≡ true
    → (if (p && q) || (r && s) then x else y) ≡ (if s then x else y)
second_test true q r s x y e h = absurd (cc e)
second_test false q true s x y e h = refl
second_test false q false s x y e h = absurd (cc h)

ltb_yes : (a b : ℤ) → a <ℤ b → ltb_ℤ a b ≡ true
ltb_yes a b h = lt→ltb (pos_part a + neg_part b) (pos_part b + neg_part a) h

ltb_no : (a b : ℤ) → b ≤ℤ a → ltb_ℤ a b ≡ false
ltb_no a b h = not-lt→ltb (pos_part a + neg_part b) (pos_part b + neg_part a) (omega arith)

-- The smaller or the larger of the two, as the direction asks.
chosen :
    (a b x y : ℤ)
    → (((if ltb_ℤ a b then x else y) ≡ x) × (a <ℤ b))
      ⊎ (((if ltb_ℤ a b then x else y) ≡ y) × (b ≤ℤ a))
chosen a b x y = elim (dec_lt (pos_part a + neg_part b) (pos_part b + neg_part a)) [
  | yes l ↦ inl (ap (λ t. if t then x else y) (ltb_yes a b l), l)
  | no g ↦ inr (ap (λ t. if t then x else y) (ltb_no a b (omega arith)), omega arith)
]

abbrev Ends : LongArgs → ℤ → ℤ → Type 0
Ends a b c = ((long_end a ≡ a.start) × (b <ℤ c)) ⊎ ((long_end a ≡ a.end) × (c ≤ℤ b))

end_up : (a : LongArgs) → pos 0 <ℤ a.incr → Ends a a.end a.start
unfolding long_end
end_up a s =
    let e : long_end a ≡ (if ltb_ℤ a.end a.start then a.start else a.end) =
      first_test (ltb_ℤ (pos 0) a.incr) (ltb_ℤ a.end a.start) (ltb_ℤ a.incr (pos 0))
        (ltb_ℤ a.start a.end) a.start a.end (ltb_yes (pos 0) a.incr s)
        (ltb_no a.incr (pos 0) (omega arith)) in
    elim (chosen a.end a.start a.start a.end) [
      | inl (c, l) ↦ inl (e ∙ c, l)
      | inr (c, l) ↦ inr (e ∙ c, l)
    ]

end_down : (a : LongArgs) → a.incr <ℤ pos 0 → Ends a a.start a.end
unfolding long_end
end_down a s =
    let e : long_end a ≡ (if ltb_ℤ a.start a.end then a.start else a.end) =
      second_test (ltb_ℤ (pos 0) a.incr) (ltb_ℤ a.end a.start) (ltb_ℤ a.incr (pos 0))
        (ltb_ℤ a.start a.end) a.start a.end (ltb_no (pos 0) a.incr (omega arith))
        (ltb_yes a.incr (pos 0) s) in
    elim (chosen a.start a.end a.start a.end) [
      | inl (c, l) ↦ inl (e ∙ c, l)
      | inr (c, l) ↦ inr (e ∙ c, l)
    ]

-- The end is not behind the start, and the distance fits.
abbrev Reaches : ℤ → ℤ → ℤ → Type 0
Reaches start incr e =
    ((pos 0 <ℤ incr) × (start ≤ℤ e) × (e -ℤ start +ℤ incr <ℤ pos (2 ^ 63)))
    ⊎ ((incr <ℤ pos 0) × (e ≤ℤ start) × (start -ℤ e -ℤ incr <ℤ pos (2 ^ 63)))

reaches : (a : LongArgs) → Counts a → Reaches a.start a.incr (long_end a)
reaches a (counts_up s b f) = elim (end_up a s) [
  | inl (e, l) ↦
      subst (λ z. Reaches a.start a.incr z) (sym e) (inl (s, omega arith, omega int_laws))
  | inr (e, l) ↦ subst (λ z. Reaches a.start a.incr z) (sym e) (inl (s, l, f))
]
reaches a (counts_down s b f) = elim (end_down a s) [
  | inl (e, l) ↦
      subst (λ z. Reaches a.start a.incr z) (sym e) (inr (s, omega arith, omega int_laws))
  | inr (e, l) ↦ subst (λ z. Reaches a.start a.incr z) (sym e) (inr (s, l, f))
]

long_end-IsLong : (a : LongArgs) → IsLongLoop a → IsLong (long_end a)
long_end-IsLong a l = elim l.counts [
  | counts_up s b f ↦ elim (end_up a s) [
    | inl (e, h) ↦ subst (λ z. IsLong z) (sym e) l.start_fits
    | inr (e, h) ↦ subst (λ z. IsLong z) (sym e) l.end_fits
  ]
  | counts_down s b f ↦ elim (end_down a s) [
    | inl (e, h) ↦ subst (λ z. IsLong z) (sym e) l.start_fits
    | inr (e, h) ↦ subst (λ z. IsLong z) (sym e) l.end_fits
  ]
]

-- The chunk size times the step has the sign of the step.
scaled_up : (c i : ℤ) → pos 0 <ℤ c → pos 0 <ℤ i → pos 0 <ℤ c *ℤ i
scaled_up (pos x) (pos k) h l =
    subst (λ z. pos 0 <ℤ z) (sym (scale_up x k)) (omega (arith, mul_mono 1 x k (omega arith)))
scaled_up (pos x) (negsuc k) h l = absurd (omega arith)
scaled_up (negsuc x) i h l = absurd (omega arith)

scaled_down : (c i : ℤ) → pos 0 <ℤ c → i <ℤ pos 0 → c *ℤ i <ℤ pos 0
scaled_down (pos x) (pos k) h l = absurd (omega arith)
scaled_down (pos x) (negsuc k) h l =
    subst (λ z. z <ℤ pos 0) (sym (scale_neg x (suc k)))
      (omega (arith, neg-parts (x * suc k), mul_mono 1 x (suc k) (omega arith)))
scaled_down (negsuc x) i h l = absurd (omega arith)

as_count : (c : ℤ) → pos 0 <ℤ c → (n : ℕ) × (c ≡ pos n)
as_count (pos n) h = (n, refl)
as_count (negsuc n) h = absurd (omega arith)

module _ (team : Option ℕ) (a : LongArgs) (l : IsLongLoop a) where
  exact : wrap_long (a.chunk_size *ℤ a.incr) ≡ a.chunk_size *ℤ a.incr
  exact = wrap_long_exact (a.chunk_size *ℤ a.incr) l.scaled_fits

  dynamic-IsSteppedLong : IsSteppedLong (init_long team a dynamic)
  unfolding init_long is_dynamic
  dynamic-IsSteppedLong = record {
    dynamic = elim (reaches a l.counts) [
      | inl (s, f, b) ↦
          dynamic_up s
            (subst (λ z. pos 0 <ℤ z) (sym exact) (scaled_up a.chunk_size a.incr l.some_chunk s)) f
      | inr (s, f, b) ↦
          dynamic_down s
            (subst (λ z. z <ℤ pos 0) (sym exact) (scaled_down a.chunk_size a.incr l.some_chunk s)) f
    ];
    scaled =
        let (c, e) = as_count a.chunk_size l.some_chunk in (c, exact ∙ ap (λ z. z *ℤ a.incr) e);
  }

  guided-IsGuidedLong : IsGuidedLong (init_long team a guided)
  unfolding init_long is_dynamic
  guided-IsGuidedLong = record {
    loop = elim (reaches a l.counts) [
      | inl (s, f, b) ↦ loop_up s f b
      | inr (s, f, b) ↦ loop_down s f b
    ];
    start_fits = l.start_fits;
    end_fits = long_end-IsLong a l;
    some_chunk = l.some_chunk;
    chunk_fits = l.chunk_fits;
  }

  -- Let `gomp_loop_init` set up a loop over `long`, up or down: start and end fit in a `long`,
  -- the step is not zero and its size is below 2 ^ 63, so is the distance from the start to the
  -- end, if it is ahead, plus the size of the step, and the chunk size is positive, below 2 ^ 63,
  -- and fits in a `long` when it is multiplied by the step. For a dynamic loop, calls of
  -- `gomp_iter_dynamic_next_locked`, and for a guided loop, calls of
  -- `gomp_iter_guided_next_locked` for any number of threads, repeated until one is refused, end,
  -- and cut the values into consecutive, nonempty ranges from the start to the end of the loop,
  -- or to the start if the end is behind it; each of them starts a whole number of steps from the
  -- start, so at a value of the loop variable.
  pub init_long-TilesLong :
      (nthreads : ℕ)
      → Returns
          (take_all_long gomp_iter_dynamic_next_locked
            (dist a.start (long_end a) + 1)
            (init_long team a dynamic))
          (λ ranges. TilesByLong a.incr a.start ranges (long_end a))
        × Returns
            (take_all_long
              (gomp_iter_guided_next_locked nthreads)
              (dist a.start (long_end a) + 1)
              (init_long team a guided))
            (λ ranges. TilesByLong a.incr a.start ranges (long_end a))
  unfolding init_long is_dynamic
  init_long-TilesLong nthreads = (
    dynamic_long-TilesLong (init_long team a dynamic) dynamic-IsSteppedLong,
    guided_long-TilesLong nthreads (init_long team a guided) guided-IsGuidedLong,
  )
