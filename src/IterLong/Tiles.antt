-- ===== src/IterLong/Tiles.antt =====
-- A thread that calls a `next` of libgomp/iter.c until it is refused, and the ranges it gets.
use libgomp.Prelude.{
  ℕ, zero, suc, ◌+◌, ◌*◌, ◌<◌, ◌≡◌, refl, ap, ◌∙◌, ◌⊎◌, inl, inr, List, [], ◌∷◌, Option, none, some,
  arith, ◌>>=◌, Returns, Returns-bind, dec_lt,
}
use mathlib.Core.Path.{subst}
use libgomp.Prelude.Int.{
  ℤ, pos, negsuc, pos_part, neg_part, int_laws, ◌+ℤ◌, ◌-ℤ◌, ◌*ℤ◌, eq_of_parts,
}
use libgomp.IterLong.{LongShare, LongGrab}
use libgomp.IterLong.Cas.{◌<ℤ◌, Toward}
use libgomp.IterLong.Count.{dist, scale_up, scale_neg, neg-parts}

-- Ranges that follow one another from `a` to `b`, none of them empty, none past `b`.
abbrev pub TilesLong : ℤ → List (ℤ × ℤ) → ℤ → Type 0
TilesLong a [] b = a ≡ b
TilesLong a ((s, e) ∷ rest) b = (s ≡ a) × Toward a e b × TilesLong e rest b

-- Every range starts at a value of the loop variable, a whole number of steps from `a`.
abbrev pub OnGridLong : ℤ → ℤ → List (ℤ × ℤ) → Type 0
OnGridLong step a [] = Unit {0}
OnGridLong step a ((s, e) ∷ rest) = ((q : ℕ) × (s ≡ a +ℤ pos q *ℤ step)) × OnGridLong step a rest

-- The ranges tile the way from `a` to `b`, and start at values of the loop variable.
abbrev pub TilesByLong : ℤ → ℤ → List (ℤ × ℤ) → ℤ → Type 0
TilesByLong step a ranges b = TilesLong a ranges b × OnGridLong step a ranges

distribute : (q r k : ℕ) → q * k + r * k ≡ (q + r) * k
distribute q r k = grind arith

steps_add : (a step : ℤ) (q r : ℕ) → a +ℤ pos q *ℤ step +ℤ pos r *ℤ step ≡ a +ℤ pos (q + r) *ℤ step
steps_add a (pos k) q r =
    rw (scale_up q k, scale_up r k, scale_up (q + r) k) (omega (int_laws, distribute q r k))
steps_add a (negsuc k) q r =
    rw (scale_neg q (suc k), scale_neg r (suc k), scale_neg (q + r) (suc k))
      (omega (
        int_laws,
        neg-parts (q * suc k),
        neg-parts (r * suc k),
        neg-parts ((q + r) * suc k),
        distribute q r (suc k),
      ))

no_steps : (a step : ℤ) → a ≡ a +ℤ pos 0 *ℤ step
no_steps a (pos k) = rw (scale_up 0 k) (omega int_laws)
no_steps a (negsuc k) = rw (scale_neg 0 (suc k)) (omega (int_laws, neg-parts (0 * suc k)))

OnGridLong-on :
    (step a e : ℤ) (q : ℕ) (ranges : List (ℤ × ℤ))
    → e ≡ a +ℤ pos q *ℤ step
    → OnGridLong step e ranges
    → OnGridLong step a ranges
OnGridLong-on step a e q [] h g = tt
OnGridLong-on step a e q ((s, e') ∷ rest) h ((r, at), g) = (
  (q + r, at ∙ ap (λ z. z +ℤ pos r *ℤ step) h ∙ steps_add a step q r),
  OnGridLong-on step a e q rest h g,
)

-- Nothing lies behind the end.
TilesLong-end :
    (step a b : ℤ) (ranges : List (ℤ × ℤ)) → TilesLong b ranges b → OnGridLong step a ranges
TilesLong-end step a b [] t = tt
TilesLong-end step a b ((s, e) ∷ rest) (h, t, r) = absurd (omega arith)

-- A range ends at the end of the loop, or after a whole number of steps.
abbrev pub StopsLong : ℤ → ℤ → ℤ → ℤ → Type 0
StopsLong step a e b = (e ≡ b) ⊎ ((q : ℕ) × (e ≡ a +ℤ pos q *ℤ step))

next-OnGridLong :
    (step a e b : ℤ) (rest : List (ℤ × ℤ))
    → StopsLong step a e b
    → TilesLong e rest b
    → OnGridLong step e rest
    → OnGridLong step a rest
next-OnGridLong step a e b rest (inl last) t g =
    TilesLong-end step a b rest (subst (λ z. TilesLong z rest b) last t)
next-OnGridLong step a e b rest (inr (q, h)) t g = OnGridLong-on step a e q rest h g

abbrev pub after_long : LongGrab → (LongShare → Option (List (ℤ × ℤ))) → Option (List (ℤ × ℤ))
after_long (none, ws') again = some []
after_long (some p, ws') again = again ws' >>= λ rest. some (p ∷ rest)

-- `none`: no fuel left.
unfoldable pub take_all_long : (LongShare → LongGrab) → ℕ → LongShare → Option (List (ℤ × ℤ))
take_all_long next zero ws = none
take_all_long next (suc fuel) ws = after_long (next ws) (take_all_long next fuel)

abbrev pub Open : LongShare → Type 0
Open ws = (ws.next <ℤ ws.end) ⊎ (ws.end <ℤ ws.next)

abbrev pub GrabsLong : (LongShare → Type 0) → (LongShare → LongGrab) → Type 0
GrabsLong Ok next =
    (ws : LongShare)
    → Ok ws
    → (ws.next ≡ ws.end → next ws ≡ (none, ws))
      × (Open ws
          → (e : ℤ) × (next ws ≡ (some (ws.next, e), record ws { next = e }))
            × Toward ws.next e ws.end
            × StopsLong ws.incr ws.next e ws.end
            × Ok (record ws { next = e }))

Open-or_not : (ws : LongShare) → Open ws ⊎ (ws.next ≡ ws.end)
Open-or_not ws =
    elim (dec_lt (pos_part ws.next + neg_part ws.end) (pos_part ws.end + neg_part ws.next)) [
      | yes l ↦ inl (inl l)
      | no g ↦
          elim (dec_lt (pos_part ws.end + neg_part ws.next) (pos_part ws.next + neg_part ws.end)) [
            | yes l ↦ inl (inr l)
            | no h ↦ inr (eq_of_parts ws.next ws.end (omega arith))
          ]
    ]

one_sign : (a : ℤ) → (pos_part a ≡ 0) ⊎ (neg_part a ≡ 0)
one_sign (pos n) = inr refl
one_sign (negsuc n) = inl refl

shrinks : (a e b : ℤ) → Toward a e b → dist e b < dist a b
shrinks a e b t = omega (int_laws, one_sign (b -ℤ e), one_sign (b -ℤ a))

pub take_all_long-TilesLong :
    (Ok : LongShare → Type 0) (next : LongShare → LongGrab)
    → GrabsLong Ok next
    → (fuel : ℕ) (ws : LongShare) → Ok ws
    → dist ws.next ws.end < fuel
    → Returns (take_all_long next fuel ws) (λ ranges. TilesByLong ws.incr ws.next ranges ws.end)
unfolding take_all_long
take_all_long-TilesLong Ok next g zero ws k f = absurd (omega arith)
take_all_long-TilesLong Ok next g (suc fuel) ws k f = elim (Open-or_not ws) [
  | inr e ↦ rw ((g ws k).0 e) (e, tt)
  | inl o ↦
      let (e, run, t, stop, k') = (g ws k).1 o in
      rw run (
        Returns-bind (λ ranges. TilesByLong ws.incr e ranges ws.end)
          (λ ranges. TilesByLong ws.incr ws.next ranges ws.end)
          (take_all_long next fuel (record ws { next = e })) (λ rest. some ((ws.next, e) ∷ rest))
          (take_all_long-TilesLong Ok next g fuel (record ws { next = e }) k'
            (omega (arith, shrinks ws.next e ws.end t)))
          (λ ranges (r, on). (
            (refl, t, r),
            (
              (0, no_steps ws.next ws.incr),
              next-OnGridLong ws.incr ws.next e ws.end ranges stop r on,
            ),
          )))
]
