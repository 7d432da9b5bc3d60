-- ===== src/Single/First.antt =====
-- Which of the threads of a team executes a SINGLE construct.
use libgomp.Prelude.{
  ℕ, suc, ◌+◌, ◌≤◌, ◌<◌, ◌≡◌, refl, sym, ap, ◌∙◌, ◌↔◌, List, [], ◌∷◌, Option, some, true, arith,
  length, ◌==◌, ==_iff, eq→==, if◌then◌else◌, update, ℕ_discrete,
}
use mathlib.Core.Path.{ap₂}
use native.Mathlib.Numerals.{add-one}
use libgomp.Word.{word64, add64, add64_exact}
use libgomp.Single.{SingleStart, gomp_single_start}

-- A team that has just started, or has made some calls; the counter of the team, and the threads'.
pub record Counters : Type 0 where
  pub team_count : Option ℕ
  pub thread_count : ℕ → ℕ

abbrev pub call : ℕ → Counters → SingleStart
call i s = gomp_single_start s.team_count (s.thread_count i)

-- The counters after the threads of the list have called, the last one first.
abbrev pub after_calls : List ℕ → Counters
after_calls [] = record { team_count = some 0; thread_count = λ i. 0 }
after_calls (i ∷ before) =
    let s = after_calls before in
    record {
      team_count = (call i s).team_count;
      thread_count = update s.thread_count i (call i s).thread_count;
    }

-- How often a thread has called: its place among the constructs that it meets.
abbrev pub calls : ℕ → List ℕ → ℕ
calls i [] = 0
calls i (j ∷ before) = if j == i then suc (calls i before) else calls i before

calls-le : (i : ℕ) (before : List ℕ) → calls i before ≤ length before
calls-le i [] = omega arith
calls-le i (j ∷ before) = ground (arith, calls-le i before)

record Counted (before : List ℕ) (s : Counters) (count : ℕ) : Type 0 where
  team : s.team_count ≡ some count
  own : (i : ℕ) → s.thread_count i ≡ calls i before
  most : (i : ℕ) → calls i before ≤ count
  reached : (i : ℕ) × (calls i before ≡ count)

-- What a call does to the counters.
call_lem :
    (i : ℕ) (before : List ℕ) (s : Counters) (count : ℕ)
    → length before + 1 < word64
    → Counted before s count
    → call i s ≡ record {
      ret = count == calls i before;
      team_count = some (if count == calls i before then suc (calls i before) else count);
      thread_count = suc (calls i before);
    }
unfolding gomp_single_start
call_lem i before s count fits c =
    let e : add64 (calls i before) 1 ≡ suc (calls i before) =
      add64_exact (calls i before) 1 (omega (arith, calls-le i before))
      ∙ add-one (calls i before) in
    ap₂ gomp_single_start c.team (c.own i) ∙ rw e refl

Counted-step :
    (i : ℕ) (before : List ℕ) (s : Counters) (count : ℕ)
    → length before + 1 < word64
    → Counted before s count
    → Counted
        (i ∷ before)
        (record {
          team_count = (call i s).team_count;
          thread_count = update s.thread_count i (call i s).thread_count;
        })
        (if count == calls i before then suc (calls i before) else count)
Counted-step i before s count fits c = record {
  team = ap (λ (r : SingleStart). r.team_count) (call_lem i before s count fits c);
  own = λ j.
      ground (
        arith,
        ap (λ (r : SingleStart). r.thread_count) (call_lem i before s count fits c),
        c.own j,
      );
  most = λ j. ground (arith, c.most j, c.most i);
  reached = elim (ℕ_discrete count (calls i before)) [
    | yes e ↦ (i, ground arith)
    | no ne ↦ let (k, r) = c.reached in (k, ground arith)
  ];
}

counted :
    (before : List ℕ)
    → length before < word64
    → (count : ℕ) × Counted before (after_calls before) count
counted [] h =
    (0, record { team = refl; own = λ i. refl; most = λ i. omega arith; reached = (0, refl) })
counted (i ∷ before) h =
    let (count, c) = counted before (omega arith) in
    (
      (if count == calls i before then suc (calls i before) else count),
      Counted-step i before (after_calls before) count (omega arith) c,
    )

-- Let the threads of a team call `GOMP_single_start` in any order, fewer than 2 ^ 64 times. The
-- next call of a thread returns true exactly if no thread has called more often before, so that it
-- is the first to reach this construct.
pub single_start_first :
    (before : List ℕ) (i : ℕ)
    → length before < word64
    → ((call i (after_calls before)).ret ≡ true) ↔ ((j : ℕ) → calls j before ≤ calls i before)
unfolding gomp_single_start
single_start_first before i h =
    let (count, c) = counted before (omega arith) in
    let e : (call i (after_calls before)).ret ≡ (count == calls i before) =
      ap₂ (λ t n. (gomp_single_start t n).ret) c.team (c.own i) in
    let (k, r) = c.reached in
    (
      λ won j. omega (arith, c.most j, (==_iff count (calls i before)).0 (sym e ∙ won)),
      λ top. e ∙ eq→== count (calls i before) (omega (arith, c.most i, top k, r)),
    )
