-- ===== src/Env.antt =====
-- The parsers of environment variables (libgomp/env.c). A text is the list of its bytes; `getenv`
-- returns a text or nothing.
pub mod Text
pub mod Numbers
pub mod Lists
pub mod Schedule
pub mod Values
pub mod Sizes
pub mod Bind
pub mod Policies
use libgomp.Prelude.{
  ℕ, zero, suc, ◌+◌, ◌-◌, ◌%◌, ◌^◌, List, [], ◌∷◌, ◌++◌, Option, none, some, Bool, true, false, not,
  ◌&&◌, ◌||◌, ◌==◌, ltb, if◌then◌else◌, length,
}
use libgomp.Prelude.Int.{ℤ, pos, negsuc, ltb_ℤ}
use libgomp.Word.{word64}
use libgomp.IterLong.{to_unsigned, to_long}
use libgomp.LoopUll.Init.{Sched, static, dynamic, guided, binlpt_sched, srr_sched, auto_sched}
use Text.{skip_spaces, Strtoul, strtoul, strip_name}

-- `false` without a message, `false` with one, or `true`.
pub data Parsed {ℓ} (A : Type ℓ) : Type ℓ where
  absent invalid : Parsed A
  parsed : A → Parsed A

abbrev pub at_end : List ℕ → Bool
at_end [] = true
at_end (c ∷ r) = false

-- `(long) value <= 0 - allow_zero`
abbrev pub is_negative : Bool → ℕ → Bool
is_negative allow_zero value = not (ltb_ℤ (if allow_zero then negsuc 0 else pos 0) (to_long value))

-- A number, and what follows it.
unfoldable pub parse_number : Bool → List ℕ → Option (ℕ × List ℕ)
parse_number allow_zero env =
    let number = strtoul env in
    if at_end env
    then none
    else if number.range_error || is_negative allow_zero number.value
    then none
    else some (number.value, skip_spaces number.rest)

unfoldable pub parse_unsigned_long : Option (List ℕ) → Bool → Parsed ℕ
parse_unsigned_long none allow_zero = absent
parse_unsigned_long (some env) allow_zero = elim (parse_number allow_zero (skip_spaces env)) [
  | none ↦ invalid
  | some (value, rest) ↦ if at_end rest then parsed value else invalid
]

-- `if (value > INT_MAX)`
unfoldable pub parse_int : Option (List ℕ) → Bool → Parsed ℕ
parse_int env allow_zero = elim (parse_unsigned_long env allow_zero) [
  | absent ↦ absent
  | invalid ↦ invalid
  | parsed value ↦ if ltb (2 ^ 31 - 1) value then invalid else parsed value
]

-- The numbers behind the first one, for at most `fuel` of them; a list has fewer than it has bytes.
unfoldable pub parse_more : ℕ → List ℕ → Option (List ℕ)
parse_more fuel [] = some []
parse_more zero (c ∷ env) = none
parse_more (suc fuel) (c ∷ env) =
    if not (c == 44) then none else elim (parse_number false (skip_spaces env)) [
      | none ↦ none
      | some (value, rest) ↦ elim (parse_more fuel rest) [
        | none ↦ none
        | some values ↦ some (value ∷ values)
      ]
    ]

-- The first value, and all of them if there is more than one: otherwise `*pvalues` is not set.
unfoldable pub parse_unsigned_long_list : Option (List ℕ) → Parsed (ℕ × List ℕ)
parse_unsigned_long_list none = absent
parse_unsigned_long_list (some env) = elim (parse_number false (skip_spaces env)) [
  | none ↦ invalid
  | some (value, rest) ↦ elim (parse_more (length rest) rest) [
    | none ↦ invalid
    | some [] ↦ parsed (value, [])
    | some (x ∷ values) ↦ parsed (value, value ∷ x ∷ values)
  ]
]

-- `gomp_global_icv`, and what was reported.
pub data Report : Type 0 where
  fine unknown_value invalid_size : Report

pub record ScheduleIcv : Type 0 where
  pub run_sched_var : Sched
  pub run_sched_modifier : ℤ
  pub report : Report

-- A name that was found, and the first of two.
abbrev pub named : Sched → Option (List ℕ) → Option (Sched × List ℕ)
named sched none = none
named sched (some rest) = some (sched, rest)

abbrev pub first_some : Option (Sched × List ℕ) → Option (Sched × List ℕ) → Option (Sched × List ℕ)
first_some none y = y
first_some (some x) y = some x

-- The schedule that the text begins with, and what follows its name.
unfoldable pub schedule_name : List ℕ → Option (Sched × List ℕ)
schedule_name env =
    first_some (named static (strip_name (115 ∷ 116 ∷ 97 ∷ 116 ∷ 105 ∷ 99 ∷ []) env)) (
      first_some (named dynamic (strip_name (100 ∷ 121 ∷ 110 ∷ 97 ∷ 109 ∷ 105 ∷ 99 ∷ []) env)) (
        first_some (named guided (strip_name (103 ∷ 117 ∷ 105 ∷ 100 ∷ 101 ∷ 100 ∷ []) env)) (
          first_some (named binlpt_sched (strip_name (98 ∷ 105 ∷ 110 ∷ 108 ∷ 112 ∷ 116 ∷ []) env)) (
            first_some (named srr_sched (strip_name (115 ∷ 114 ∷ 114 ∷ []) env))
              (named auto_sched (strip_name (97 ∷ 117 ∷ 116 ∷ 111 ∷ []) env))))))

unfoldable pub is_static : Sched → Bool
is_static static = true
is_static s = false

-- `(int) value`
abbrev pub to_int : ℕ → ℤ
to_int value =
    if ltb (value % 2 ^ 32) (2 ^ 31)
    then pos (value % 2 ^ 32)
    else negsuc (2 ^ 32 - 1 - value % 2 ^ 32)

-- The chunk size behind the comma.
unfoldable pub chunk_size : Sched → ScheduleIcv → List ℕ → ScheduleIcv
chunk_size sched icv env =
    let number = strtoul env in
    if at_end env
      || number.range_error
      || not (at_end (skip_spaces number.rest))
      || not (to_unsigned (to_int number.value) == number.value)
    then record icv { report = invalid_size }
    else record icv {
      run_sched_modifier =
          if number.value == 0 && not (is_static sched) then pos 1 else to_int number.value;
    }

-- What follows the name of the schedule.
unfoldable pub schedule_rest : Sched → ScheduleIcv → List ℕ → ScheduleIcv
schedule_rest sched icv [] = record icv {
  run_sched_modifier = if is_static sched then pos 0 else pos 1;
}
schedule_rest sched icv (c ∷ env) =
    if c == 44
    then chunk_size sched icv (skip_spaces env)
    else record icv { report = unknown_value }

unfoldable pub parse_schedule : Option (List ℕ) → ScheduleIcv → ScheduleIcv
parse_schedule none icv = icv
parse_schedule (some env) icv = elim (schedule_name (skip_spaces env)) [
  | none ↦ record icv { report = unknown_value }
  | some (sched, rest) ↦
      schedule_rest sched (record icv { run_sched_var = sched }) (skip_spaces rest)
]
