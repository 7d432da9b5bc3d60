-- ===== src/IterUll/Tiles.antt =====
-- Threads that call a `next` of libgomp/iter_ull.c until it is refused, and the ranges they get.
use libgomp.Prelude.{
  ℕ, zero, suc, ◌+◌, ◌≤◌, ◌<◌, ◌*◌, ◌≡◌, refl, ◌⊎◌, inl, inr, List, [], ◌∷◌, Option, none, some,
  arith, ℕ_discrete, ◌>>=◌, Returns, Returns-bind,
}
use mathlib.Core.Path.{subst}
use libgomp.IterUll.{UllShare, Grab}

pub some_inj : (a b : Grab) → some a ≡ some b → a ≡ b
some_inj a b e = cc

-- Ranges that follow one another from `a` to `b`, none of them empty.
abbrev pub Tiles : ℕ → List (ℕ × ℕ) → ℕ → Type 0
Tiles a [] b = a ≡ b
Tiles a ((s, e) ∷ rest) b = (s ≡ a) × (a < e) × Tiles e rest b

-- Every range starts at a value of the loop variable, a whole number of steps from `a`.
abbrev pub OnGrid : ℕ → ℕ → List (ℕ × ℕ) → Type 0
OnGrid step a [] = Unit {0}
OnGrid step a ((s, e) ∷ rest) = ((q : ℕ) × (s ≡ a + q * step)) × OnGrid step a rest

-- The ranges tile the way from `a` to `b`, and start at values of the loop variable.
abbrev pub TilesBy : ℕ → ℕ → List (ℕ × ℕ) → ℕ → Type 0
TilesBy step a ranges b = Tiles a ranges b × OnGrid step a ranges

distribute : (q r k : ℕ) → q * k + r * k ≡ (q + r) * k
distribute q r k = grind arith

OnGrid-on :
    (step a e q : ℕ) (ranges : List (ℕ × ℕ))
    → e ≡ a + q * step
    → OnGrid step e ranges
    → OnGrid step a ranges
OnGrid-on step a e q [] h g = tt
OnGrid-on step a e q ((s, e') ∷ rest) h ((r, at), g) =
    ((q + r, omega (arith, distribute q r step)), OnGrid-on step a e q rest h g)

Tiles-le : (a b : ℕ) (ranges : List (ℕ × ℕ)) → Tiles a ranges b → a ≤ b
Tiles-le a b [] t = omega arith
Tiles-le a b ((s, e) ∷ rest) (h, l, t) = omega (arith, Tiles-le e b rest t)

-- No range follows the end.
Tiles-end : (step a b : ℕ) (ranges : List (ℕ × ℕ)) → Tiles b ranges b → OnGrid step a ranges
Tiles-end step a b [] t = tt
Tiles-end step a b ((s, e) ∷ rest) (h, l, t) = absurd (omega (arith, Tiles-le e b rest t))

-- A range ends at the end of the loop, or after a whole number of steps.
abbrev pub Stops : ℕ → ℕ → ℕ → ℕ → Type 0
Stops step a e b = (e ≡ b) ⊎ ((q : ℕ) × (e ≡ a + q * step))

next-OnGrid :
    (step a e b : ℕ) (rest : List (ℕ × ℕ))
    → Stops step a e b
    → Tiles e rest b
    → OnGrid step e rest
    → OnGrid step a rest
next-OnGrid step a e b rest (inl last) t g =
    Tiles-end step a b rest (subst (λ z. Tiles z rest b) last t)
next-OnGrid step a e b rest (inr (q, h)) t g = OnGrid-on step a e q rest h g

-- The caller executes the range and asks again, or leaves the loop.
abbrev pub after : Grab → (UllShare → Option (List (ℕ × ℕ))) → Option (List (ℕ × ℕ))
after (none, ws') again = some []
after (some p, ws') again = again ws' >>= λ rest. some (p ∷ rest)

-- A thread that calls `next` until it is refused. `none`: no fuel left.
unfoldable pub take_all : (UllShare → Grab) → ℕ → UllShare → Option (List (ℕ × ℕ))
take_all next zero ws = none
take_all next (suc fuel) ws = after (next ws) (take_all next fuel)

-- The calls that count up: each takes a range from `next` on, within `end`.
abbrev pub Grabs : (UllShare → Type 0) → (UllShare → Grab) → Type 0
Grabs Ok next =
    (ws : UllShare)
    → Ok ws
    → (ws.next ≡ ws.end → next ws ≡ (none, ws))
      × (ws.next < ws.end
          → (e : ℕ) × (next ws ≡ (some (ws.next, e), record ws { next = e }))
            × (ws.next < e)
            × (e ≤ ws.end)
            × Stops ws.incr ws.next e ws.end
            × Ok (record ws { next = e }))

pub take_all-Tiles :
    (Ok : UllShare → Type 0) (next : UllShare → Grab)
    → Grabs Ok next
    → (fuel : ℕ) (ws : UllShare) → Ok ws
    → ws.next ≤ ws.end
    → ws.end < fuel + ws.next
    → Returns (take_all next fuel ws) (λ ranges. TilesBy ws.incr ws.next ranges ws.end)
unfolding take_all
take_all-Tiles Ok next g zero ws k l f = absurd (omega arith)
take_all-Tiles Ok next g (suc fuel) ws k l f = elim (ℕ_discrete ws.next ws.end) [
  | yes e ↦ rw ((g ws k).0 e) (e, tt)
  | no ne ↦
      let (e, run, lo, hi, stop, k') = (g ws k).1 (omega arith) in
      rw run (
        Returns-bind (λ ranges. TilesBy ws.incr e ranges ws.end)
          (λ ranges. TilesBy ws.incr ws.next ranges ws.end)
          (take_all next fuel (record ws { next = e })) (λ rest. some ((ws.next, e) ∷ rest))
          (take_all-Tiles Ok next g fuel (record ws { next = e }) k' hi (omega arith))
          (λ ranges (t, on). (
            (refl, lo, t),
            ((0, omega arith), next-OnGrid ws.incr ws.next e ws.end ranges stop t on),
          )))
]
