-- ===== src/IterLong/Cas.antt =====
-- The variants of the dynamic schedule over `long` (libgomp/iter.c).
use libgomp.Prelude.{
  ◌+◌, ◌≡◌, refl, ap, ◌∙◌, ◌⊎◌, inl, inr, ◌<◌, List, ◌∷◌, Option, some, Bool, true, false, arith,
  sym, dec_lt, if◌then◌else◌, not-lt→ltb, lt→ltb,
}
use mathlib.Core.Path.{subst}
use libgomp.Prelude.Int.{ℤ, pos, pos_part, neg_part, int_laws, ◌≤ℤ◌, ◌+ℤ◌, ◌-ℤ◌, ltb_ℤ}
use libgomp.IterLong.{
  LongShare, LongGrab, eq_ℤ, clip_long, gomp_iter_dynamic_next_locked, cas_long,
  gomp_iter_dynamic_next,
}

pub eq_ℤ_refl : (a : ℤ) → eq_ℤ a a ≡ true
eq_ℤ_refl a = rw (not-lt→ltb (pos_part a + neg_part a) (pos_part a + neg_part a) (λ h. omega arith))

if_false : (b : Bool) (x y : Option LongGrab) → b ≡ false → (if b then x else y) ≡ y
if_false true x y e = absurd (cc e)
if_false false x y e = refl

if_some :
    (b c : Bool) (x y : LongGrab) (z : Option LongGrab)
    → c ≡ true
    → (if b then some x else if c then some y else z) ≡ some (if b then x else y)
if_some true c x y z e = refl
if_some false true x y z e = refl
if_some false false x y z e = absurd (cc e)

-- If fetch-and-add is not used and no other thread writes to `next` before the first
-- compare-and-swap, `gomp_iter_dynamic_next` returns and leaves what
-- `gomp_iter_dynamic_next_locked` does.
pub dynamic_alone-locked :
    (ws : LongShare) (rest : List ℤ)
    → ws.mode ≡ false
    → gomp_iter_dynamic_next ws (ws.next ∷ rest) ≡ some (gomp_iter_dynamic_next_locked ws)
unfolding gomp_iter_dynamic_next cas_long gomp_iter_dynamic_next_locked
dynamic_alone-locked ws rest slow =
    if_false ws.mode _ _ slow
    ∙ if_some (eq_ℤ ws.next ws.end) (eq_ℤ ws.next ws.next) _ _ _ (eq_ℤ_refl ws.next)

infix 50 ◌<ℤ◌
abbrev pub ◌<ℤ◌ : ℤ → ℤ → Type 0
a <ℤ b = pos_part a + neg_part b < pos_part b + neg_part a

-- A loop with iterations left, and a chunk size of the sign of the step.
pub data IsAhead (ws : LongShare) : Type 0 where
  ahead_up : pos 0 <ℤ ws.incr → pos 0 <ℤ ws.chunk_size → ws.next <ℤ ws.end → IsAhead ws
  ahead_down : ws.incr <ℤ pos 0 → ws.chunk_size <ℤ pos 0 → ws.end <ℤ ws.next → IsAhead ws

-- `e` lies behind `a` on the way to `b`, and not past it.
abbrev pub Toward : ℤ → ℤ → ℤ → Type 0
Toward a e b = ((a <ℤ e) × (e ≤ℤ b)) ⊎ ((e <ℤ a) × (b ≤ℤ e))

-- A step that is all that is left, or one that is no larger.
toward_up :
    (a b x c : ℤ)
    → a <ℤ b
    → pos 0 <ℤ c
    → (x ≡ b -ℤ a) ⊎ ((x ≡ c) × (c ≤ℤ b -ℤ a))
    → (a <ℤ a +ℤ x) × (a +ℤ x ≤ℤ b)
toward_up a b x c l p (inl e) =
    subst (λ z. (a <ℤ a +ℤ z) × (a +ℤ z ≤ℤ b)) (sym e) (omega int_laws, omega int_laws)
toward_up a b x c l p (inr (e, h)) =
    subst (λ z. (a <ℤ a +ℤ z) × (a +ℤ z ≤ℤ b)) (sym e) (omega int_laws, omega int_laws)

toward_down :
    (a b x c : ℤ)
    → b <ℤ a
    → c <ℤ pos 0
    → (x ≡ b -ℤ a) ⊎ ((x ≡ c) × (b -ℤ a ≤ℤ c))
    → (a +ℤ x <ℤ a) × (b ≤ℤ a +ℤ x)
toward_down a b x c l p (inl e) =
    subst (λ z. (a +ℤ z <ℤ a) × (b ≤ℤ a +ℤ z)) (sym e) (omega int_laws, omega int_laws)
toward_down a b x c l p (inr (e, h)) =
    subst (λ z. (a +ℤ z <ℤ a) × (b ≤ℤ a +ℤ z)) (sym e) (omega int_laws, omega int_laws)

choice_above :
    (left size : ℤ)
    → ((if ltb_ℤ left size then left else size) ≡ left)
      ⊎ (((if ltb_ℤ left size then left else size) ≡ size) × (size ≤ℤ left))
choice_above left size =
    elim (dec_lt (pos_part left + neg_part size) (pos_part size + neg_part left)) [
      | yes l ↦ inl (rw (lt→ltb (pos_part left + neg_part size) (pos_part size + neg_part left) l))
      | no g ↦ inr (
        rw (not-lt→ltb (pos_part left + neg_part size) (pos_part size + neg_part left) g),
        omega arith,
      )
    ]

choice_below :
    (size left : ℤ)
    → ((if ltb_ℤ size left then left else size) ≡ left)
      ⊎ (((if ltb_ℤ size left then left else size) ≡ size) × (left ≤ℤ size))
choice_below size left =
    elim (dec_lt (pos_part size + neg_part left) (pos_part left + neg_part size)) [
      | yes l ↦ inl (rw (lt→ltb (pos_part size + neg_part left) (pos_part left + neg_part size) l))
      | no g ↦ inr (
        rw (not-lt→ltb (pos_part size + neg_part left) (pos_part left + neg_part size) g),
        omega arith,
      )
    ]

pub eq_false : (a b : ℤ) → (a <ℤ b) ⊎ (b <ℤ a) → eq_ℤ a b ≡ false
eq_false a b (inl l) = rw (lt→ltb (pos_part a + neg_part b) (pos_part b + neg_part a) l)
eq_false a b (inr g) = rw (
  not-lt→ltb (pos_part a + neg_part b) (pos_part b + neg_part a) (λ h. omega arith),
  lt→ltb (pos_part b + neg_part a) (pos_part a + neg_part b) g,
)

pub pick : {A : Type 0} (b : Bool) (x y : A) → b ≡ false → (if b then x else y) ≡ y
pick true x y e = absurd (cc e)
pick false x y e = refl

pub pick_true : {A : Type 0} (b : Bool) (x y : A) → b ≡ true → (if b then x else y) ≡ x
pick_true true x y e = refl
pick_true false x y e = absurd (cc e)

-- What is taken is all that is left, or a chunk.
abbrev pub Taken : ℤ → ℤ → ℤ → ℤ → Type 0
Taken a e b c = (e ≡ b) ⊎ (e ≡ a +ℤ c)

taken_all : (a b x : ℤ) → x ≡ b -ℤ a → a +ℤ x ≡ b
taken_all a b x h = ap (λ z. a +ℤ z) h ∙ back a b
  where
    back : (a b : ℤ) → a +ℤ (b -ℤ a) ≡ b
    back a b = omega int_laws

chosen-Taken :
    (P : Type 0) (a b c x y : ℤ) → x ≡ y → (y ≡ b -ℤ a) ⊎ ((y ≡ c) × P) → Taken a (a +ℤ x) b c
chosen-Taken P a b c x y h (inl e) = inl (taken_all a b x (h ∙ e))
chosen-Taken P a b c x y h (inr (e, p)) = inr (ap (λ z. a +ℤ z) (h ∙ e))

-- In a dynamic loop over `long` with iterations left and a chunk size of the sign of the step, up
-- or down, `gomp_iter_dynamic_next_locked` takes a nonempty range from `next` toward the end, and
-- not past it, and moves `next` to the end of that range, a chunk
-- further or at the end of the loop.
pub dynamic_locked-Toward :
    (ws : LongShare)
    → IsAhead ws
    → (e : ℤ) × (gomp_iter_dynamic_next_locked ws ≡ (some (ws.next, e), record ws { next = e }))
      × Toward ws.next e ws.end
      × Taken ws.next e ws.end ws.chunk_size
unfolding gomp_iter_dynamic_next_locked clip_long
dynamic_locked-Toward ws (ahead_up s c l) =
    let left : ℤ = ws.end -ℤ ws.next in
    let size : ℤ = clip_long ws ws.chunk_size left in
    let chosen : size ≡ (if ltb_ℤ left ws.chunk_size then left else ws.chunk_size) =
      pick (ltb_ℤ ws.incr (pos 0)) _ _
        (not-lt→ltb (pos_part ws.incr + 0) (0 + neg_part ws.incr) (λ h. omega arith)) in
    (
      ws.next +ℤ size,
      pick (eq_ℤ ws.next ws.end) _ _ (eq_false ws.next ws.end (inl l)),
      inl (
          subst (λ z. (ws.next <ℤ ws.next +ℤ z) × (ws.next +ℤ z ≤ℤ ws.end)) (sym chosen)
            (toward_up ws.next ws.end _ ws.chunk_size l c (choice_above left ws.chunk_size))),
      chosen-Taken (ws.chunk_size ≤ℤ left) ws.next ws.end ws.chunk_size size _ chosen
          (choice_above left ws.chunk_size),
    )
dynamic_locked-Toward ws (ahead_down s c l) =
    let left : ℤ = ws.end -ℤ ws.next in
    let size : ℤ = clip_long ws ws.chunk_size left in
    let chosen : size ≡ (if ltb_ℤ ws.chunk_size left then left else ws.chunk_size) =
      pick_true (ltb_ℤ ws.incr (pos 0)) _ _
        (lt→ltb (pos_part ws.incr + 0) (0 + neg_part ws.incr) (omega arith)) in
    (
      ws.next +ℤ size,
      pick (eq_ℤ ws.next ws.end) _ _ (eq_false ws.next ws.end (inr l)),
      inr (
          subst (λ z. (ws.next +ℤ z <ℤ ws.next) × (ws.end ≤ℤ ws.next +ℤ z)) (sym chosen)
            (toward_down ws.next ws.end _ ws.chunk_size l c (choice_below ws.chunk_size left))),
      chosen-Taken (left ≤ℤ ws.chunk_size) ws.next ws.end ws.chunk_size size _ chosen
          (choice_below ws.chunk_size left),
    )
