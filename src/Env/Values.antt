-- ===== src/Env/Values.antt =====
-- The parsers of sizes, counts and switches (libgomp/env.c).
use libgomp.Prelude.{
  ℕ, ◌-◌, ◌*◌, ◌/◌, ◌%◌, ◌^◌, List, [], ◌∷◌, Option, none, some, Bool, true, false, not, ◌||◌, ◌==◌,
  ltb, if◌then◌else◌,
}
use libgomp.Word.{word64, mul64}
use libgomp.Env.Text.{lower, skip_spaces, strtoul, strip_name}
use libgomp.Env.{Parsed, absent, invalid, parsed, at_end}

-- The unit behind a number, which the table gives by its letter; it may be missing.
unfoldable pub unit_of : (ℕ → Option ℕ) → ℕ → List ℕ → Option ℕ
unit_of table default [] = some default
unit_of table default (c ∷ env) = if at_end (skip_spaces env) then table (lower c) else none

-- 'b', 'k', 'm' and 'g'
unfoldable pub size_shift : ℕ → Option ℕ
size_shift c =
    if c == 98
    then some 0
    else if c == 107
    then some 10
    else if c == 109
    then some 20
    else if c == 103
    then some 30
    else none

abbrev pub shift_left : ℕ → ℕ → ℕ
shift_left value shift = value * 2 ^ shift % word64

-- `if (((value << shift) >> shift) != value) goto invalid;`
unfoldable pub shift_checked : ℕ → Option ℕ → Parsed ℕ
shift_checked value none = invalid
shift_checked value (some shift) =
    if shift_left value shift / 2 ^ shift == value then parsed (shift_left value shift) else invalid

unfoldable pub stacksize_value : List ℕ → Parsed ℕ
stacksize_value env =
    let number = strtoul env in
    if at_end env || number.range_error
    then invalid
    else shift_checked number.value (unit_of size_shift 10 (skip_spaces number.rest))

unfoldable pub parse_stacksize : Option (List ℕ) → Parsed ℕ
parse_stacksize none = absent
parse_stacksize (some env) = stacksize_value (skip_spaces env)

-- 'k', 'm', 'g' and 't'
unfoldable pub count_unit : ℕ → Option ℕ
count_unit c =
    if c == 107
    then some 1000
    else if c == 109
    then some 1_000_000
    else if c == 103
    then some 1_000_000_000
    else if c == 116
    then some 1_000_000_000_000
    else none

-- A product that does not fit is the largest number.
unfoldable pub multiplied : ℕ → Option ℕ → Parsed ℕ
multiplied value none = invalid
multiplied value (some mult) =
    parsed (if ltb ((word64 - 1) / mult) value then word64 - 1 else mul64 value mult)

unfoldable pub spincount_value : List ℕ → Parsed ℕ
spincount_value env =
    let number = strtoul env in
    if at_end env || number.range_error
    then invalid
    else multiplied number.value (unit_of count_unit 1 (skip_spaces number.rest))

-- "infinite" and "infinity"
abbrev pub infinite_name : List ℕ → Option (List ℕ)
infinite_name env = elim (strip_name (105 ∷ 110 ∷ 102 ∷ 105 ∷ 110 ∷ 105 ∷ 116 ∷ 101 ∷ []) env) [
  | none ↦ strip_name (105 ∷ 110 ∷ 102 ∷ 105 ∷ 110 ∷ 105 ∷ 116 ∷ 121 ∷ []) env
  | some rest ↦ some rest
]

unfoldable pub spincount_from : List ℕ → Parsed ℕ
spincount_from env = elim (infinite_name env) [
  | none ↦ spincount_value env
  | some rest ↦ if at_end (skip_spaces rest) then parsed (word64 - 1) else invalid
]

unfoldable pub parse_spincount : Option (List ℕ) → Parsed ℕ
parse_spincount none = absent
parse_spincount (some env) = spincount_from (skip_spaces env)

-- The value afterwards, and whether it was reported as invalid. A text that goes on behind the word
-- is reported, but the value is stored.
unfoldable pub boolean_from : Bool → List ℕ → Bool × Bool
boolean_from value env = elim (strip_name (116 ∷ 114 ∷ 117 ∷ 101 ∷ []) env) [
  | some rest ↦ (true, not (at_end (skip_spaces rest)))
  | none ↦ elim (strip_name (102 ∷ 97 ∷ 108 ∷ 115 ∷ 101 ∷ []) env) [
    | some rest ↦ (false, not (at_end (skip_spaces rest)))
    | none ↦ (value, true)
  ]
]

unfoldable pub parse_boolean : Option (List ℕ) → Bool → Bool × Bool
parse_boolean none value = (value, false)
parse_boolean (some env) value = boolean_from value (skip_spaces env)

-- 1 and 0 for "active" and "passive": what the text that follows the word leaves of it.
unfoldable pub policy_from : List ℕ → Parsed ℕ
policy_from env = elim (strip_name (97 ∷ 99 ∷ 116 ∷ 105 ∷ 118 ∷ 101 ∷ []) env) [
  | some rest ↦ if at_end (skip_spaces rest) then parsed 1 else invalid
  | none ↦ elim (strip_name (112 ∷ 97 ∷ 115 ∷ 115 ∷ 105 ∷ 118 ∷ 101 ∷ []) env) [
    | some rest ↦ if at_end (skip_spaces rest) then parsed 0 else invalid
    | none ↦ invalid
  ]
]

-- -1, which leaves the policy undefined, is `absent` or `invalid`.
unfoldable pub parse_wait_policy : Option (List ℕ) → Parsed ℕ
parse_wait_policy none = absent
parse_wait_policy (some env) = policy_from (skip_spaces env)
