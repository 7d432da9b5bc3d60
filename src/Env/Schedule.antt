-- ===== src/Env/Schedule.antt =====
-- `parse_schedule` (libgomp/env.c) on the texts that it is meant to read, and on negative chunk sizes.
use libgomp.Prelude.{
  ℕ, zero, suc, ◌+◌, ◌-◌, ◌%◌, ◌^◌, ◌≤◌, ◌<◌, ◌≡◌, ◌≢◌, refl, ap, ◌∙◌, List, [], ◌∷◌, ◌++◌, some,
  false, not, ◌&&◌, arith, ◌==◌, eq→==, ne→==, lt→ltb, not-lt→ltb, if◌then◌else◌,
}
use libgomp.Prelude.Int.{ℤ, pos, negsuc, neg_ℕ}
use libgomp.Word.{sub64}
use libgomp.IterLong.{to_unsigned}
use libgomp.LoopUll.Init.{
  Sched, runtime, static, dynamic, guided, binlpt_sched, srr_sched, auto_sched,
}
use libgomp.Env.Text.{strtoul, strip_name}
use libgomp.Env.{
  ScheduleIcv, at_end, schedule_name, is_static, to_int, chunk_size, schedule_rest, parse_schedule,
}
use libgomp.Env.Numbers.{
  AllSpaces, IsDecimal, decimal_value, NoDigit, NoSpace, skip_lem, skip_all, decimal-NoSpace,
  space-NoDigit, strtoul_lem, strtoul_negative,
}
use libgomp.Env.Lists.{decimal_not_end}

-- The name of a schedule in the environment.
abbrev pub schedule_word : Sched → List ℕ
schedule_word static = 115 ∷ 116 ∷ 97 ∷ 116 ∷ 105 ∷ 99 ∷ []
schedule_word dynamic = 100 ∷ 121 ∷ 110 ∷ 97 ∷ 109 ∷ 105 ∷ 99 ∷ []
schedule_word guided = 103 ∷ 117 ∷ 105 ∷ 100 ∷ 101 ∷ 100 ∷ []
schedule_word binlpt_sched = 98 ∷ 105 ∷ 110 ∷ 108 ∷ 112 ∷ 116 ∷ []
schedule_word srr_sched = 115 ∷ 114 ∷ 114 ∷ []
schedule_word auto_sched = 97 ∷ 117 ∷ 116 ∷ 111 ∷ []
schedule_word runtime = []

name_lem :
    (s : Sched) (rest : List ℕ)
    → s ≢ runtime
    → schedule_name (schedule_word s ++ rest) ≡ some (s, rest)
unfolding schedule_name strip_name
name_lem static rest n = refl
name_lem dynamic rest n = refl
name_lem guided rest n = refl
name_lem binlpt_sched rest n = refl
name_lem srr_sched rest n = refl
name_lem auto_sched rest n = refl
name_lem runtime rest n = absurd (n refl)

word-NoSpace : (s : Sched) (rest : List ℕ) → s ≢ runtime → NoSpace (schedule_word s ++ rest)
word-NoSpace static rest n = refl
word-NoSpace dynamic rest n = refl
word-NoSpace guided rest n = refl
word-NoSpace binlpt_sched rest n = refl
word-NoSpace srr_sched rest n = refl
word-NoSpace auto_sched rest n = refl
word-NoSpace runtime rest n = absurd (n refl)

spaces-NoDigit : (sp : List ℕ) → AllSpaces sp → NoDigit sp
spaces-NoDigit [] a = tt
spaces-NoDigit (c ∷ sp) a = space-NoDigit (c ∷ sp) [] a tt

-- The modifier for a number that fits in an `int`, with its sign.
abbrev pub modifier : Sched → ℕ → ℤ
modifier s value = if value == 0 && not (is_static s) then pos 1 else to_int value

size_lem :
    (s : Sched) (icv : ScheduleIcv) (env rest : List ℕ) (value : ℕ)
    → at_end env ≡ false
    → strtoul env ≡ record { value = value; rest = rest; range_error = false }
    → AllSpaces rest
    → to_unsigned (to_int value) ≡ value
    → chunk_size s icv env ≡ record icv { run_sched_modifier = modifier s value }
unfolding chunk_size
size_lem s icv env rest value more number a fits =
    rw (more, number, skip_all rest a, eq→== (to_unsigned (to_int value)) value fits) refl

small_int : (v : ℕ) → v < 2 ^ 31 → to_int v ≡ pos v
small_int v h = let e : v % 2 ^ 32 ≡ v = omega arith in rw (e, lt→ltb v (2 ^ 31) h) refl

negative_int : (v : ℕ) → 0 < v → v ≤ 2 ^ 31 → to_int (sub64 0 v) ≡ neg_ℕ v
unfolding sub64
negative_int zero p h = absurd (omega arith)
negative_int (suc n) p h =
    let e : (0 + 2 ^ 64 - suc n) % 2 ^ 64 % 2 ^ 32 ≡ 2 ^ 32 - 1 - n = omega arith in
    rw (e, not-lt→ltb (2 ^ 32 - 1 - n) (2 ^ 31) (omega arith)) (ap negsuc (omega arith))

negative_unsigned : (v : ℕ) → 0 < v → v ≤ 2 ^ 31 → to_unsigned (neg_ℕ v) ≡ sub64 0 v
unfolding sub64
negative_unsigned zero p h = absurd (omega arith)
negative_unsigned (suc n) p h = omega arith

negative_not_zero : (v : ℕ) → 0 < v → v ≤ 2 ^ 31 → sub64 0 v ≢ 0
unfolding sub64
negative_not_zero v p h e = omega arith

negative_modifier : (s : Sched) (v : ℕ) → 0 < v → v ≤ 2 ^ 31 → modifier s (sub64 0 v) ≡ neg_ℕ v
negative_modifier s v p h = rw (ne→== (sub64 0 v) 0 (negative_not_zero v p h)) (negative_int v p h)

-- The spaces that may stand around the three parts.
pub record Spaces : Type 0 where
  pub first : List ℕ
  pub second : List ℕ
  pub third : List ℕ
  pub fourth : List ℕ

pub record AreSpaces (sp : Spaces) : Type 0 where
  pub first_ok : AllSpaces sp.first
  pub second_ok : AllSpaces sp.second
  pub third_ok : AllSpaces sp.third
  pub fourth_ok : AllSpaces sp.fourth

-- A schedule, a comma, and a text for the chunk size.
abbrev pub schedule_text : Spaces → Sched → List ℕ → List ℕ
schedule_text sp s size =
    sp.first ++ (schedule_word s ++ (sp.second ++ (44 ∷ sp.third ++ (size ++ sp.fourth))))

module _ (sp : Spaces) (a : AreSpaces sp) (s : Sched) (known : s ≢ runtime)
    (icv : ScheduleIcv) where
  -- Up to the chunk size.
  before_size :
      (size : List ℕ)
      → NoSpace (size ++ sp.fourth)
      → parse_schedule (some (schedule_text sp s size)) icv
        ≡ chunk_size s (record icv { run_sched_var = s }) (size ++ sp.fourth)
  unfolding parse_schedule schedule_rest
  before_size size n =
      rw
        (
          skip_lem sp.first
              (schedule_word s ++ (sp.second ++ (44 ∷ sp.third ++ (size ++ sp.fourth)))) a.first_ok
              (word-NoSpace s _ known),
          name_lem s (sp.second ++ (44 ∷ sp.third ++ (size ++ sp.fourth))) known,
          skip_lem sp.second (44 ∷ sp.third ++ (size ++ sp.fourth)) a.second_ok refl,
          skip_lem sp.third (size ++ sp.fourth) a.third_ok n,
          parse_schedule,
        )
        refl

  module _ (ds : List ℕ) (d : IsDecimal ds) where
    abbrev v : ℕ
    v = decimal_value 0 ds

    -- For each schedule, its name, a comma and a chunk size below 2 ^ 31 in decimal, with
    -- spaces around each of the three: from that text `parse_schedule` stores the schedule and
    -- the size, or 1 if the size is 0 and the schedule is not static, and reports nothing new.
    pub schedule_lem :
        v < 2 ^ 31
        → parse_schedule (some (schedule_text sp s ds)) icv ≡ record icv {
          run_sched_var = s;
          run_sched_modifier = if v == 0 && not (is_static s) then pos 1 else pos v;
        }
    schedule_lem h =
        let fits : to_unsigned (to_int v) ≡ v = ap to_unsigned (small_int v h) ∙ omega arith in
        before_size ds (decimal-NoSpace ds sp.fourth d)
        ∙ size_lem s (record icv { run_sched_var = s }) (ds ++ sp.fourth) sp.fourth v
            (decimal_not_end ds sp.fourth d)
            (strtoul_lem ds sp.fourth d (spaces-NoDigit sp.fourth a.fourth_ok) (omega arith))
            a.fourth_ok fits
        ∙ ap
            (λ z. record icv {
              run_sched_var = s;
              run_sched_modifier = if v == 0 && not (is_static s) then pos 1 else z;
            })
            (small_int v h)

    -- If the chunk size of such a text is preceded by a minus sign and lies from 1 to 2 ^ 31,
    -- `parse_schedule` reports nothing new and stores its negative.
    pub schedule_negative :
        0 < v
        → v ≤ 2 ^ 31
        → parse_schedule (some (schedule_text sp s (45 ∷ ds))) icv
          ≡ record icv { run_sched_var = s; run_sched_modifier = neg_ℕ v }
    schedule_negative p h =
        before_size (45 ∷ ds) refl
        ∙ size_lem s (record icv { run_sched_var = s }) (45 ∷ ds ++ sp.fourth) sp.fourth (sub64 0 v)
            refl
            (strtoul_negative ds sp.fourth d (spaces-NoDigit sp.fourth a.fourth_ok) (omega arith))
            a.fourth_ok (ap to_unsigned (negative_int v p h) ∙ negative_unsigned v p h)
        ∙ ap (λ z. record icv { run_sched_var = s; run_sched_modifier = z })
            (negative_modifier s v p h)
