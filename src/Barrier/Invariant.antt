-- ===== src/Barrier/Invariant.antt =====
-- What every step of the barrier keeps, for the round `g`.
use libgomp.Prelude.{
  ℕ, suc, ◌+◌, ◌-◌, ◌*◌, ◌%◌, ◌<◌, ◌≡◌, ◌≢◌, ◌⊎◌, Bool, true, false, total, ◌==◌, if◌then◌else◌,
}
use libgomp.Word.{word32}
use libgomp.Barrier.{Pc, outside, loaded, last, storing, waiting, Thread}
use libgomp.Barrier.System.{System}

-- The generation in the round `g`.
abbrev pub gen : ℕ → ℕ
gen g = 8 * g % word32

-- A thread in the round `g`: it has not arrived; it has, and waits; or it has not noticed that the
-- round before is over.
abbrev pub Local : ℕ → Thread → Pc → Type 0
Local g t outside = (t.arrived ≡ g) × (t.left ≡ g)
Local g t (loaded ret) = (t.arrived ≡ g) × (t.left ≡ g) × (ret ≡ gen g)
Local g t last = (t.arrived ≡ suc g) × (t.left ≡ g)
Local g t storing = (t.arrived ≡ suc g) × (t.left ≡ g)
Local g t (waiting state) =
    ((t.arrived ≡ suc g) × (t.left ≡ g) × (state ≡ gen g))
    ⊎ ((t.arrived ≡ g) × (suc t.left ≡ g) × (state ≡ gen (g - 1)))

abbrev pub is_last : Pc → Bool
is_last last = true
is_last storing = true
is_last p = false

-- 1 for a thread that has arrived in the round `g`.
abbrev pub here : ℕ → Thread → ℕ
here g t = if t.arrived == suc g then 1 else 0

pub record Inv (n g : ℕ) (s : System) : Type 0 where
  pub size : s.bar.total ≡ n
  pub few : n < word32
  pub round : s.bar.generation ≡ gen g
  pub local : (i : ℕ) → i < n → Local g (s.thread i) (s.thread i).pc
  pub leader :
      (i j : ℕ)
      → i < n
      → j < n
      → is_last (s.thread i).pc ≡ true
      → is_last (s.thread j).pc ≡ true
      → i ≡ j
  pub full :
      (i : ℕ) → i < n → is_last (s.thread i).pc ≡ true → total n (λ k. here g (s.thread k)) ≡ n
  pub reset : (i : ℕ) → i < n → (s.thread i).pc ≡ storing → s.bar.awaited ≡ n
  pub counted :
      ((i : ℕ) → i < n → (s.thread i).pc ≢ storing)
      → s.bar.awaited + total n (λ k. here g (s.thread k)) ≡ n
  pub alert : s.bar.awaited ≡ 0 → (i : ℕ) × (i < n) × ((s.thread i).pc ≡ last)
