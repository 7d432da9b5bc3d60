-- ===== src/Tests/Environment.antt =====
-- Environment variables (libgomp/env.c).
use libgomp.Prelude.{
  ℕ, ◌-◌, ◌*◌, ltb, ◌≡◌, refl, some, List, [], ◌∷◌, true, false, arith, not, ◌&&◌, ◌==◌,
  if◌then◌else◌,
}
use libgomp.Prelude.Int.{pos, negsuc}
use libgomp.Word.{word64, sub64, mul64}
use libgomp.LoopUll.Init.{static, dynamic, guided, srr_sched, binlpt_sched}
use libgomp.Env.Text.{skip_spaces, read_digits, unsigned_part, after_spaces, strtoul, strip_name}
use libgomp.Env.{
  invalid, parsed, ScheduleIcv, fine, invalid_size, is_static, parse_number, parse_unsigned_long,
  parse_int, parse_more, parse_unsigned_long_list, schedule_name, chunk_size, schedule_rest,
  parse_schedule,
}
use libgomp.Env.Lists.{Item, IsItem, item_text, more_text, list_values, parse_list_lem}
use libgomp.Env.Schedule.{Spaces, AreSpaces, schedule_text, schedule_lem, schedule_negative}
use libgomp.Env.Values.{
  unit_of, size_shift, shift_checked, stacksize_value, parse_stacksize, count_unit, multiplied,
  spincount_value, spincount_from, parse_spincount, boolean_from, parse_boolean, policy_from,
  parse_wait_policy,
}
use libgomp.Env.Bind.{
  Bind, bind_master, bind_close, bind_spread, find_bind, more_binds, bind_rest, parse_bind_var,
}
use libgomp.Env.Policies.{Policy, policy_text, policies_text, policies_read, parse_bind_lem}
use libgomp.Env.Sizes.{giga, unit_size, stacksize_lem}

program : Unit {0}
unfolding sub64 skip_spaces read_digits unsigned_part after_spaces strtoul strip_name is_static
    parse_number parse_unsigned_long parse_int parse_more parse_unsigned_long_list schedule_name
    chunk_size schedule_rest parse_schedule
program = tt

-- "4,2" and "4,,2"
two_numbers : parse_unsigned_long_list (some (52 ∷ 44 ∷ 50 ∷ [])) ≡ parsed (4, 4 ∷ 2 ∷ [])
unfolding program
two_numbers = refl

empty_item : parse_unsigned_long_list (some (52 ∷ 44 ∷ 44 ∷ 50 ∷ [])) ≡ invalid
unfolding program
empty_item = refl

-- "2147483648" is a number, but not an `int`
too_large : parse_int (some (50 ∷ 49 ∷ 52 ∷ 55 ∷ 52 ∷ 56 ∷ 51 ∷ 54 ∷ 52 ∷ 56 ∷ [])) true ≡ invalid
unfolding program
too_large = refl

abbrev icv : ScheduleIcv
icv = record { run_sched_var = dynamic; run_sched_modifier = pos 1; report = fine }

-- "Guided": any case, and a chunk size of 1
capital :
    parse_schedule (some (71 ∷ 117 ∷ 105 ∷ 100 ∷ 101 ∷ 100 ∷ [])) icv
    ≡ record icv { run_sched_var = guided }
unfolding program
capital = refl

-- "static,x" is refused, but the schedule is changed
half_changed :
    parse_schedule (some (115 ∷ 116 ∷ 97 ∷ 116 ∷ 105 ∷ 99 ∷ 44 ∷ 120 ∷ [])) icv
    ≡ record icv { run_sched_var = static; report = invalid_size }
unfolding program
half_changed = refl

-- " 4" and "02 "
abbrev four : Item
four = record { before = 32 ∷ []; digits = 52 ∷ []; after = [] }

abbrev two : Item
two = record { before = []; digits = 48 ∷ 50 ∷ []; after = 32 ∷ [] }

four-IsItem : IsItem four
four-IsItem = record {
  spaces_before = (refl, tt);
  decimal = (refl, tt);
  spaces_after = tt;
  positive = omega arith;
  fits = omega arith;
}

two-IsItem : IsItem two
two-IsItem = record {
  spaces_before = tt;
  decimal = (refl, (refl, tt));
  spaces_after = (refl, tt);
  positive = omega arith;
  fits = omega arith;
}

parse_list_lem_example :
    parse_unsigned_long_list (some (item_text four (more_text (two ∷ []))))
    ≡ parsed (list_values 4 (2 ∷ []))
parse_list_lem_example = parse_list_lem four (two ∷ []) four-IsItem (two-IsItem, tt)

-- no spaces but one at the end
abbrev spaces : Spaces
spaces = record { first = []; second = []; third = []; fourth = 32 ∷ [] }

spaces_ok : AreSpaces spaces
spaces_ok = record { first_ok = tt; second_ok = tt; third_ok = tt; fourth_ok = (refl, tt) }

-- "srr,12 "
schedule_lem_example :
    parse_schedule (some (schedule_text spaces srr_sched (49 ∷ 50 ∷ []))) icv ≡ record icv {
      run_sched_var = srr_sched;
      run_sched_modifier = if 12 == 0 && not (is_static srr_sched) then pos 1 else pos 12;
    }
schedule_lem_example =
    schedule_lem spaces spaces_ok srr_sched (λ e. cc e) icv (49 ∷ 50 ∷ []) (refl, (refl, tt))
      (omega arith)

-- "binlpt,-3 "
schedule_negative_example :
    parse_schedule (some (schedule_text spaces binlpt_sched (45 ∷ 51 ∷ []))) icv
    ≡ record icv { run_sched_var = binlpt_sched; run_sched_modifier = negsuc 2 }
schedule_negative_example =
    schedule_negative spaces spaces_ok binlpt_sched (λ e. cc e) icv (51 ∷ []) (refl, tt)
      (omega arith) (omega arith)

values : Unit {0}
unfolding program unit_of size_shift shift_checked stacksize_value parse_stacksize count_unit
    multiplied spincount_value spincount_from parse_spincount boolean_from parse_boolean policy_from
    parse_wait_policy mul64
values = tt

-- "3 G" and "2"
abbrev three : List ℕ
three = 51 ∷ []

stacksize_lem_example :
    parse_stacksize (some (51 ∷ 32 ∷ 103 ∷ []))
    ≡ (if ltb (3 * unit_size giga) word64 then parsed (3 * unit_size giga) else invalid)
stacksize_lem_example =
    stacksize_lem [] (32 ∷ []) [] three giga tt (refl, tt) tt (refl, tt) (omega arith)

no_unit : parse_stacksize (some (50 ∷ [])) ≡ parsed 2048
unfolding values
no_unit = refl

-- "5k" and "Infinity"
spins : parse_spincount (some (53 ∷ 107 ∷ [])) ≡ parsed 5000
unfolding values
spins = refl

forever :
    parse_spincount (some (73 ∷ 110 ∷ 102 ∷ 105 ∷ 110 ∷ 105 ∷ 116 ∷ 121 ∷ [])) ≡ parsed (word64 - 1)
unfolding values
forever = refl

-- "trues" is reported, but stored
reported : parse_boolean (some (116 ∷ 114 ∷ 117 ∷ 101 ∷ 115 ∷ [])) false ≡ (true, true)
unfolding values
reported = refl

-- "passive"
passive : parse_wait_policy (some (112 ∷ 97 ∷ 115 ∷ 115 ∷ 105 ∷ 118 ∷ 101 ∷ [])) ≡ parsed 0
unfolding values
passive = refl

binds : Unit {0}
unfolding strip_name skip_spaces find_bind more_binds bind_rest parse_bind_var
binds = tt

-- "true,close"
single_true :
    parse_bind_var (some (116 ∷ 114 ∷ 117 ∷ 101 ∷ 44 ∷ 99 ∷ 108 ∷ 111 ∷ 115 ∷ 101 ∷ [])) ≡ invalid
unfolding binds
single_true = refl

-- " Close"
upper_case : parse_bind_var (some (32 ∷ 67 ∷ 108 ∷ 111 ∷ 115 ∷ 101 ∷ [])) ≡ parsed (bind_close, [])
unfolding binds
upper_case = refl

abbrev plain : Bind → Policy
plain kind = record { before = []; kind = kind; after = 32 ∷ [] }

-- "spread ,master ,close "
parse_bind_lem_example :
    parse_bind_var (
      some (
        policy_text
          (plain bind_spread)
          (policies_text (plain bind_master ∷ plain bind_close ∷ []))))
    ≡ policies_read bind_spread (bind_master ∷ bind_close ∷ [])
parse_bind_lem_example =
    parse_bind_lem (plain bind_spread) (plain bind_master ∷ plain bind_close ∷ [])
      (record { spaces_before = tt; spaces_after = (refl, tt) })
      ((
        record { spaces_before = tt; spaces_after = (refl, tt) },
        (refl, (record { spaces_before = tt; spaces_after = (refl, tt) }, (refl, tt))),
      ))
