-- ===== src/Barrier/Rounds.antt =====
-- The rounds of the barrier: who may leave, and that no round gets stuck.
use libgomp.Prelude.{
  ℕ, suc, ◌-◌, ◌≤◌, ◌<◌, ◌≡◌, ◌≢◌, refl, inl, inr, arith, update, total, total_zero, total_ones,
  eq→==,
}
use libgomp.Word.{word32}
use libgomp.Barrier.{Pc, outside, loaded, last, storing, waiting, Thread, move}
use libgomp.Barrier.System.{System, Step, run, init, Reach, start, later}
use libgomp.Barrier.Invariant.{gen, Local, here, Inv}
use libgomp.Barrier.Moves.{load-Inv, check-Inv, arrive-Inv, reset-Inv, store-Inv}

-- The next round, if the move ends this one.
move-Inv :
    {n g : ℕ} {s : System} (inv : Inv n g s) (i : ℕ) (lt : i < n) (p : Pc)
    → (s.thread i).pc ≡ p
    → (g' : ℕ) × Inv n g' (record {
      bar = (move s.bar (s.thread i) p).0;
      thread = update s.thread i (move s.bar (s.thread i) p).1;
    })
unfolding move
move-Inv {g = g} inv i lt outside e = (g, load-Inv inv i lt e)
move-Inv {g = g} inv i lt (loaded ret) e = (g, arrive-Inv inv i lt ret e)
move-Inv {g = g} inv i lt last e = (g, reset-Inv inv i lt e)
move-Inv {g = g} inv i lt storing e = (suc g, store-Inv inv i lt e)
move-Inv {g = g} inv i lt (waiting state) e = (g, check-Inv inv i lt state e)

Step-Inv : {n g : ℕ} {s t : System} → Inv n g s → Step n s t → (g' : ℕ) × Inv n g' t
Step-Inv {s = s} inv (run i lt) = move-Inv inv i lt (s.thread i).pc refl

init-Inv : (n : ℕ) → 0 < n → n < word32 → Inv n 0 (init n)
init-Inv n pos few = record {
  size = refl;
  few = few;
  round = refl;
  local = λ i l. (refl, refl);
  leader = λ i j l m h k. absurd (cc h);
  full = λ i l h. absurd (cc h);
  reset = λ i l e. absurd (cc e);
  counted = λ none. omega (arith, total_zero n (λ k. here 0 ((init n).thread k)) (λ k l. refl));
  alert = λ z. absurd (omega arith);
}

Reach-Inv : {n : ℕ} {s : System} → 0 < n → n < word32 → Reach n s → (g : ℕ) × Inv n g s
Reach-Inv {n} pos few start = (0, init-Inv n pos few)
Reach-Inv pos few (later r st) = let (g, inv) = Reach-Inv pos few r in Step-Inv inv st

Local-bounds :
    (g : ℕ) (t : Thread) (p : Pc)
    → Local g t p
    → (t.left ≤ g) × (g ≤ t.arrived) × (t.arrived ≤ suc t.left)
Local-bounds g t outside l = omega (arith, l.0, l.1)
Local-bounds g t (loaded ret) l = omega (arith, l.0, l.1)
Local-bounds g t last l = omega (arith, l.0, l.1)
Local-bounds g t storing l = omega (arith, l.0, l.1)
Local-bounds g t (waiting state) (inl l) = omega (arith, l.0, l.1)
Local-bounds g t (waiting state) (inr l) = omega (arith, l.0, l.1)

-- Let a team of `n` threads, `0 < n < 2 ^ 32`, use one barrier again and again, their accesses
-- interleaved in any order. No thread has left the barrier more often than any other has arrived at
-- it: nobody leaves a round before all have arrived, although the generation wraps at 2 ^ 32.
pub left-le-arrived :
    {n : ℕ} {s : System}
    → 0 < n
    → n < word32
    → Reach n s
    → (i j : ℕ) → i < n
    → j < n
    → (s.thread i).left ≤ (s.thread j).arrived
left-le-arrived {s = s} pos few r i j li lj =
    let (g, inv) = Reach-Inv pos few r in
    omega (
      arith,
      (Local-bounds g (s.thread i) (s.thread i).pc (inv.local i li)).0,
      (Local-bounds g (s.thread j) (s.thread j).pc (inv.local j lj)).1,
    )

-- A thread that waits in vain: the generation is still that of its state.
abbrev pub Stuck : System → ℕ → Type 0
Stuck s i = (s.thread i).pc ≡ waiting s.bar.generation

gen_differs : (g k : ℕ) → suc k ≡ g → gen (g - 1) ≢ gen g
gen_differs g k e h = omega arith

stuck_here :
    {n g : ℕ} {s : System}
    → Inv n g s
    → (t : Thread) (p : Pc) → p ≡ waiting s.bar.generation
    → Local g t p
    → here g t ≡ 1
stuck_here inv t outside e l = absurd (cc e)
stuck_here inv t (loaded ret) e l = absurd (cc e)
stuck_here inv t last e l = absurd (cc e)
stuck_here inv t storing e l = absurd (cc e)
stuck_here {g = g} inv t (waiting state) e (inl l) = rw (eq→== t.arrived (suc g) l.0) refl
stuck_here {g = g} inv t (waiting state) e (inr (a, b, c)) =
    let h : gen (g - 1) ≡ gen g = cc (e, c, inv.round) in absurd (gen_differs g t.left b h)

-- Let a team of `n` threads, `0 < n < 2 ^ 32`, use one barrier again and again, their accesses
-- interleaved in any order. In no state do all the threads wait for the stored generation to
-- change: some thread can go on.
pub not_all-Stuck :
    {n : ℕ} {s : System} → 0 < n → n < word32 → Reach n s → ¬ ((i : ℕ) → i < n → Stuck s i)
not_all-Stuck {n} {s} pos few r all =
    let (g, inv) = Reach-Inv pos few r in
    let ones : (i : ℕ) → i < n → here g (s.thread i) ≡ 1 =
      λ i l. stuck_here inv (s.thread i) (s.thread i).pc (all i l) (inv.local i l) in
    let full : total n (λ k. here g (s.thread k)) ≡ n =
      total_ones n (λ k. here g (s.thread k)) ones in
    let zero_left : s.bar.awaited ≡ 0 =
      omega (arith, full, inv.counted (λ i l e. cc (e, all i l))) in
    let (i, l, e) = inv.alert zero_left in cc (e, all i l)
