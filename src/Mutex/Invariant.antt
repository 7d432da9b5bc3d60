-- ===== src/Mutex/Invariant.antt =====
-- What every step of the mutex keeps.
use libgomp.Prelude.{ℕ, ◌≡◌, ◌≢◌, ◌⊎◌, inl, inr, Bool, true, false, arith, update, ℕ_discrete}
use libgomp.Mutex.{
  Word, unlocked, waited, Pc, idle, first, second, parking, asleep, owner, waking, cas_lock,
  set_waiting, first_loop, wait, unlock, move,
}
use libgomp.Mutex.System.{System, Step, run, interrupt, wake_one, wake_none, Reach, start, later}

-- A thread that will still touch the word, or wake a sleeper, whatever the others do.
abbrev pub is_active : Pc → Bool
is_active second = true
is_active parking = true
is_active waking = true
is_active p = false

pub record Inv (s : System) : Type 0 where
  pub unique : (i j : ℕ) → s.pc i ≡ owner → s.pc j ≡ owner → i ≡ j
  pub held : (i : ℕ) → s.pc i ≡ owner → s.word ≢ unlocked
  pub owned : s.word ≢ unlocked → (i : ℕ) × (s.pc i ≡ owner)
  pub heard :
      (i : ℕ) → s.pc i ≡ asleep → (s.word ≡ waited) ⊎ ((j : ℕ) × (is_active (s.pc j) ≡ true))

-- What a move means for the others.
record Moved (m : Word) (p : Pc) (m' : Word) (p' : Pc) : Type 0 where
  woke : is_active p ≡ true → (is_active p' ≡ true) ⊎ (m' ≡ waited)
  kept : m ≡ waited → (m' ≡ waited) ⊎ (is_active p' ≡ true)
  slept : p' ≡ asleep → (m' ≡ waited) ⊎ (p ≡ asleep)
  entered : p' ≡ owner → (m ≡ unlocked) × (m' ≢ unlocked)
  left : p ≡ owner → m' ≡ unlocked
  taken : m' ≢ unlocked → ((m ≢ unlocked) × (p ≢ owner)) ⊎ (p' ≡ owner)
  free : m' ≡ unlocked → (m ≡ unlocked) ⊎ (p ≡ owner)

move-Moved :
    (timeout : Bool) (m : Word) (p : Pc) → Moved m p (move timeout m p).0 (move timeout m p).1
unfolding move cas_lock set_waiting first_loop wait unlock
move-Moved timeout m idle = ground arith
move-Moved timeout m (first oldval) = ground arith
move-Moved timeout m second = ground arith
move-Moved timeout m parking = ground arith
move-Moved timeout m owner = ground arith
move-Moved timeout m asleep = ground arith
move-Moved timeout m waking = ground arith

module _ {s : System} (inv : Inv s) (i : ℕ) {m' : Word} {p' : Pc}
    (mv : Moved s.word (s.pc i) m' p') where
  abbrev pc' : ℕ → Pc
  pc' = update s.pc i p'

  unique' : (a b : ℕ) → pc' a ≡ owner → pc' b ≡ owner → a ≡ b
  unique' a b pa pb = ground (arith, inv.unique a b, inv.held a, inv.held b, mv.entered)

  held' : (a : ℕ) → pc' a ≡ owner → m' ≢ unlocked
  held' a pa e = ground (arith, inv.held a, inv.unique a i, mv.free, mv.entered)

  owned' : m' ≢ unlocked → (a : ℕ) × (pc' a ≡ owner)
  owned' n = elim (mv.taken n) [
    | inl (n', other) ↦ let (a, pa) = inv.owned n' in (a, ground (arith, other))
    | inr here ↦ (i, ground arith)
  ]

  abbrev Heard : Type 0
  Heard = (m' ≡ waited) ⊎ ((j : ℕ) × (is_active (pc' j) ≡ true))

  mover_active : is_active p' ≡ true → Heard
  mover_active h = inr (i, ground arith)

  still_heard : (s.word ≡ waited) ⊎ ((j : ℕ) × (is_active (s.pc j) ≡ true)) → Heard
  still_heard (inl w) = elim (mv.kept w) [ inl w' ↦ inl w' | inr h ↦ mover_active h ]
  still_heard (inr (j, h)) = elim (ℕ_discrete i j) [
    | yes e ↦
        let h' : is_active (s.pc i) ≡ true = rw e h in
        elim (mv.woke h') [ inl k ↦ mover_active k | inr w ↦ inl w ]
    | no ne ↦ inr (j, ground arith)
  ]

  heard' : (a : ℕ) → pc' a ≡ asleep → Heard
  heard' a pa = elim (ℕ_discrete i a) [
    | yes e ↦
        let here : p' ≡ asleep = ground arith in
        elim (mv.slept here) [ inl w ↦ inl w | inr h ↦ still_heard (inv.heard i h) ]
    | no ne ↦ let there : s.pc a ≡ asleep = ground arith in still_heard (inv.heard a there)
  ]

  Moved-Inv : Inv (record { word = m'; pc = pc' })
  Moved-Inv = record { unique = unique'; held = held'; owned = owned'; heard = heard' }

-- A thread that has woken another, or found none asleep, is done.
module _ {s : System} (inv : Inv s) (i : ℕ) (here : s.pc i ≡ waking) where
  done-Inv :
      ((a : ℕ) → s.pc a ≡ asleep → (j : ℕ) × (i ≢ j) × (is_active (s.pc j) ≡ true))
      → Inv (record s { pc = update s.pc i idle })
  done-Inv other = record {
    unique = λ a b pa pb. ground (arith, inv.unique a b);
    held = λ a pa. ground (arith, inv.held a);
    owned = λ n. let (a, pa) = inv.owned n in (a, ground arith);
    heard = λ a pa.
        let there : s.pc a ≡ asleep = ground arith in
        let (j, ne, h) = other a there in inr (j, ground arith);
  }

Step-Inv : {s t : System} → Inv s → Step s t → Inv t
Step-Inv {s} inv (run i timeout) = Moved-Inv inv i (move-Moved timeout s.word (s.pc i))
Step-Inv {s} inv (interrupt i e) = Moved-Inv inv i (rw e (ground arith))
Step-Inv {s} inv (wake_one i j e e') =
    let woken : Inv (record s { pc = update s.pc j second }) =
      Moved-Inv inv j (rw e' (ground arith)) in
    done-Inv woken i (ground arith) (λ a pa. (j, ground arith, ground arith))
Step-Inv {s} inv (wake_none i e none) = done-Inv inv i e (λ a pa. absurd (none a pa))

pub Reach-Inv : {s : System} → Reach s → Inv s
Reach-Inv start = ground arith
Reach-Inv (later r st) = Step-Inv (Reach-Inv r) st
