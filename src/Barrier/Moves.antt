-- ===== src/Barrier/Moves.antt =====
-- A move of the thread `i` at the barrier, by the place where it stands.
use libgomp.Prelude.{
  ℕ, suc, ◌+◌, ◌-◌, ◌≤◌, ◌<◌, ◌≡◌, ◌≢◌, refl, sym, ap, ◌∙◌, Bool-cases, inl, inr, true, false,
  arith, update, total, total-update, total_full, total_congr, total_zero, ◌==◌, eq→==, ne→==,
  ℕ_discrete,
}
use mathlib.Core.Path.{subst}
use libgomp.Word.{add32, sub32, sub32_exact}
use libgomp.Barrier.{
  bar_incr, masked, Pc, outside, loaded, last, storing, waiting, Thread, arrive, check,
}
use libgomp.Barrier.System.{System}
use libgomp.Barrier.Invariant.{gen, Local, is_last, here, Inv}

masked-gen : (g : ℕ) → masked (gen g) ≡ gen g
unfolding masked
masked-gen g = omega arith

gen_next : (g : ℕ) → add32 (gen g) bar_incr ≡ gen (suc g)
unfolding add32
gen_next g = omega arith

module _ {n g : ℕ} {s : System} (inv : Inv n g s) (i : ℕ) (lt : i < n) where
  count : ℕ
  count = total n (λ k. here g (s.thread k))

  abbrev with_thread : Thread → ℕ → Thread
  with_thread t' = update s.thread i t'

  count_step :
      (t' : Thread)
      → total n (λ k. here g (with_thread t' k)) + here g (s.thread i) ≡ count + here g t'
  unfolding count
  count_step t' =
      let e : total n (λ k. here g (with_thread t' k))
          ≡ total n (update (λ k. here g (s.thread k)) i (here g t')) =
        total_congr n (λ k. here g (with_thread t' k))
          (update (λ k. here g (s.thread k)) i (here g t')) (λ k l. ground arith) in
      omega (arith, e, total-update n (λ k. here g (s.thread k)) i (here g t') lt)

  here-le : (k : ℕ) → k < n → here g (s.thread k) ≤ 1
  here-le k l = ground arith

  -- A thread that has not arrived rules out a leader.
  no_leader : (s.thread i).arrived ≡ g → (j : ℕ) → j < n → is_last (s.thread j).pc ≢ true
  no_leader e j l h =
      let one : here g (s.thread i) ≡ 1 =
        total_full n (λ k. here g (s.thread k)) here-le (inv.full j l h) i lt in
      ground (arith, one)

  same_count :
      (t' : Thread)
      → t'.arrived ≡ (s.thread i).arrived
      → total n (λ k. here g (with_thread t' k)) ≡ count
  same_count t' same = ground (arith, count_step t')

  local' :
      (t' : Thread)
      → Local g t' t'.pc
      → (k : ℕ) → k < n
      → Local g (with_thread t' k) (with_thread t' k).pc
  local' t' l k h = elim (ℕ_discrete i k) [
    | yes e ↦ rw (eq→== i k e) l
    | no ne ↦ rw (ne→== i k ne) (inv.local k h)
  ]

  none_storing :
      (t' : Thread)
      → is_last (s.thread i).pc ≡ false
      → ((k : ℕ) → k < n → (with_thread t' k).pc ≢ storing)
      → (k : ℕ) → k < n
      → (s.thread k).pc ≢ storing
  none_storing t' old none k l e = elim (ℕ_discrete i k) [
    | yes same ↦ ground arith
    | no ne ↦ none k l (ground arith)
  ]

  -- No leader comes or goes, and nobody arrives.
  quiet-Inv :
      (t' : Thread)
      → t'.arrived ≡ (s.thread i).arrived
      → is_last (s.thread i).pc ≡ false
      → is_last t'.pc ≡ false
      → Local g t' t'.pc
      → Inv n g (record s { thread = with_thread t' })
  unfolding count
  quiet-Inv t' same old new l = record {
    size = inv.size;
    few = inv.few;
    round = inv.round;
    local = local' t' l;
    leader = λ a b la lb ha hb. ground (arith, inv.leader a b);
    full = λ a la ha.
        let ha' : is_last (s.thread a).pc ≡ true = ground arith in
        same_count t' same ∙ inv.full a la ha';
    reset = λ a la e. ground (arith, inv.reset a);
    counted = λ none. omega (arith, same_count t' same, inv.counted (none_storing t' old none));
    alert = λ z. let (a, la, e) = inv.alert z in (a, la, ground arith);
  }

  at_pc : (p : Pc) → (s.thread i).pc ≡ p → Local g (s.thread i) p
  at_pc p e = subst (λ q. Local g (s.thread i) q) e (inv.local i lt)

  -- `gomp_barrier_wait_start`: the load.
  pub load-Inv :
      (s.thread i).pc ≡ outside
      → Inv n g (record s {
        thread = with_thread (record (s.thread i) { pc = loaded (masked s.bar.generation) });
      })
  load-Inv e =
      quiet-Inv (record (s.thread i) { pc = loaded (masked s.bar.generation) }) refl (ap is_last e)
        refl ((at_pc outside e).0, (at_pc outside e).1, ap masked inv.round ∙ masked-gen g)

  pub check-Inv :
      (state : ℕ)
      → (s.thread i).pc ≡ waiting state
      → Inv n g (record s { thread = with_thread (check s.bar (s.thread i) state) })
  unfolding check
  check-Inv state e = elim (Bool-cases (s.bar.generation == state)) [
    | inl same ↦
        rw same (quiet-Inv (s.thread i) refl (ap is_last e) (ap is_last e) (inv.local i lt))
    | inr other ↦ rw other (
        quiet-Inv (record (s.thread i) { pc = outside; left = suc (s.thread i).left }) refl
          (ap is_last e) refl (leave (at_pc (waiting state) e) other))
  ]
    where
      leave :
          Local g (s.thread i) (waiting state)
          → (s.bar.generation == state) ≡ false
          → ((s.thread i).arrived ≡ g) × (suc (s.thread i).left ≡ g)
      leave (inl (a, b, c)) other = absurd (ground (arith, inv.round))
      leave (inr (a, b, c)) other = (a, b)

  -- The decrement of `awaited`.
  module _ (early : (s.thread i).arrived ≡ g) where
    no_storing : (k : ℕ) → k < n → (s.thread k).pc ≢ storing
    no_storing k l e = no_leader early k l (ap is_last e)

    sum : s.bar.awaited + count ≡ n
    unfolding count
    sum = inv.counted no_storing

    awaited_pos : 0 < s.bar.awaited
    awaited_pos = elim (ℕ_discrete s.bar.awaited 0) [
      | yes z ↦
          let one : here g (s.thread i) ≡ 1 =
            total_full n (λ k. here g (s.thread k)) here-le (omega (arith, inv.counted no_storing))
              i lt in
          absurd (ground (arith, one))
      | no nz ↦ omega arith
    ]

    fewer : sub32 s.bar.awaited 1 ≡ s.bar.awaited - 1
    fewer = sub32_exact s.bar.awaited 1 (omega (arith, awaited_pos)) (omega (arith, sum, inv.few))

    arrived-Inv :
        (t' : Thread)
        → t'.arrived ≡ suc g
        → Local g t' t'.pc
        → t'.pc ≢ storing
        → (is_last t'.pc ≡ true → s.bar.awaited ≡ 1)
        → (sub32 s.bar.awaited 1 ≡ 0 → t'.pc ≡ last)
        → Inv n g (record {
          bar = record s.bar { awaited = sub32 s.bar.awaited 1 };
          thread = with_thread t';
        })
    arrived-Inv t' more l not_storing flag flag' = record {
      size = inv.size;
      few = inv.few;
      round = inv.round;
      local = local' t' l;
      leader = λ a b la lb ha hb. ground (arith, no_leader early a, no_leader early b);
      full = λ a la ha.
          let mine : is_last t'.pc ≡ true = ground (arith, no_leader early a la) in
          omega (arith, flag mine, one_more, sum);
      reset = λ a la e. absurd (ground (arith, no_storing a la));
      counted = λ none. omega (arith, one_more, sum, fewer, awaited_pos);
      alert = λ z. (i, lt, rw (eq→== i i refl) (flag' z));
    }
      where
        one_more : total n (λ k. here g (with_thread t' k)) ≡ count + 1
        one_more = ground (arith, count_step t')

  pub arrive-Inv :
      (ret : ℕ)
      → (s.thread i).pc ≡ loaded ret
      → Inv n g (record {
        bar = (arrive s.bar (s.thread i) ret).0;
        thread = with_thread (arrive s.bar (s.thread i) ret).1;
      })
  unfolding arrive
  arrive-Inv ret e =
      let (a, b, c) = at_pc (loaded ret) e in
      elim (Bool-cases (sub32 s.bar.awaited 1 == 0)) [
        | inl zero_left ↦ rw zero_left (
            arrived-Inv a
              (record { pc = last; arrived = suc (s.thread i).arrived; left = (s.thread i).left })
              (ap suc a) (ap suc a, b) (λ q. cc) (λ _. ground (arith, fewer a, awaited_pos a))
              (λ _. refl))
        | inr some_left ↦ rw some_left (
            arrived-Inv a
              (record {
                pc = waiting ret;
                arrived = suc (s.thread i).arrived;
                left = (s.thread i).left;
              })
              (ap suc a) (inl (ap suc a, b, c)) (λ q. cc) (λ q. absurd (cc q))
              (λ z. absurd (ground arith)))
      ]

  -- The last thread resets `awaited`.
  pub reset-Inv :
      (s.thread i).pc ≡ last
      → Inv n g (record {
        bar = record s.bar { awaited = s.bar.total };
        thread = with_thread (record (s.thread i) { pc = storing });
      })
  unfolding count
  reset-Inv e = record {
    size = inv.size;
    few = inv.few;
    round = inv.round;
    local = local' t' (at_pc last e);
    leader = λ a b la lb ha hb. inv.leader a b la lb (was_last a ha) (was_last b hb);
    full = λ a la ha. same_count t' refl ∙ inv.full i lt (ap is_last e);
    reset = λ a la q. inv.size;
    counted = λ none. absurd (none i lt (rw (eq→== i i refl)));
    alert = λ z. absurd (omega (arith, inv.size));
  }
    where
      t' : Thread
      t' = record (s.thread i) { pc = storing }

      was_last : (k : ℕ) → is_last (with_thread t' k).pc ≡ true → is_last (s.thread k).pc ≡ true
      was_last k h = elim (ℕ_discrete i k) [
        | yes same ↦ subst (λ m. is_last (s.thread m).pc ≡ true) same (ap is_last e)
        | no ne ↦ ground arith
      ]

  -- Its store of the generation ends the round.
  module _ (e : (s.thread i).pc ≡ storing) where
    all_here : (k : ℕ) → k < n → (s.thread k).arrived ≡ suc g
    all_here k l =
        let one : here g (s.thread k) ≡ 1 =
          total_full n (λ j. here g (s.thread j)) here-le (inv.full i lt (ap is_last e)) k l in
        ground (arith, one)

    next_round :
        (t : Thread) (p : Pc)
        → t.arrived ≡ suc g
        → is_last p ≡ false
        → Local g t p
        → Local (suc g) t p
    next_round t outside a q l = absurd (omega (arith, l.0))
    next_round t (loaded ret) a q l = absurd (omega (arith, l.0))
    next_round t last a q l = absurd (cc q)
    next_round t storing a q l = absurd (cc q)
    next_round t (waiting state) a q (inl (x, y, z)) =
        let back : suc g - 1 ≡ g = omega arith in inr (x, ap suc y, z ∙ ap gen (sym back))
    next_round t (waiting state) a q (inr (x, y, z)) = absurd (omega arith)

    not_last : (k : ℕ) → k < n → i ≢ k → is_last (s.thread k).pc ≡ false
    not_last k l ne = elim (Bool-cases (is_last (s.thread k).pc)) [
      | inl h ↦ absurd (ne (inv.leader i k lt l (ap is_last e) h))
      | inr h ↦ h
    ]

    abbrev gone : Thread
    gone = record (s.thread i) { pc = outside; left = suc (s.thread i).left }

    none_last : (k : ℕ) → k < n → is_last (with_thread gone k).pc ≢ true
    none_last k l h = elim (ℕ_discrete i k) [
      | yes same ↦ ground arith
      | no ne ↦ ground (arith, not_last k l ne)
    ]

    next-Local : (k : ℕ) → k < n → Local (suc g) (with_thread gone k) (with_thread gone k).pc
    next-Local k l = elim (ℕ_discrete i k) [
      | yes same ↦ rw (eq→== i k same) (all_here i lt, ap suc (at_pc storing e).1)
      | no ne ↦
          rw (ne→== i k ne) (
            next_round (s.thread k) (s.thread k).pc (all_here k l) (not_last k l ne)
              (inv.local k l))
    ]

    none_here : total n (λ k. here (suc g) (with_thread gone k)) ≡ 0
    none_here =
        total_zero n (λ k. here (suc g) (with_thread gone k))
          (λ k l. ground (arith, all_here k l, all_here i lt))

    pub store-Inv : Inv n (suc g) (record {
      bar = record s.bar { generation = add32 s.bar.generation bar_incr };
      thread = with_thread gone;
    })
    store-Inv = record {
      size = inv.size;
      few = inv.few;
      round = ap (λ x. add32 x bar_incr) inv.round ∙ gen_next g;
      local = next-Local;
      leader = λ a b la lb ha hb. absurd (none_last a la ha);
      full = λ a la ha. absurd (none_last a la ha);
      reset = λ a la q. absurd (none_last a la (ap is_last q));
      counted = λ none. omega (arith, none_here, inv.reset i lt e);
      alert = λ z. absurd (omega (arith, inv.reset i lt e));
    }
