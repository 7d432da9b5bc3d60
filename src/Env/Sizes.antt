-- ===== src/Env/Sizes.antt =====
-- `parse_stacksize` and `parse_spincount` (libgomp/env.c) on a number with a unit.
use libgomp.Prelude.{
  ℕ, ◌*◌, ◌/◌, ◌%◌, ◌<◌, ◌≡◌, refl, List, ◌∷◌, ◌++◌, some, arith, eq→==, ne→==, ltb, lt→ltb,
  not-lt→ltb, if◌then◌else◌, dec_lt,
}
use libgomp.Word.{word64}
use libgomp.Env.Text.{lower}
use libgomp.Env.Numbers.{
  AllSpaces, IsDecimal, decimal_value, NoDigit, NoSpace, skip_lem, skip_all, space-NoDigit,
  decimal-NoSpace, strtoul_lem,
}
use libgomp.Env.Lists.{decimal_not_end}
use libgomp.Env.Values.{unit_of, size_shift, shift_checked, stacksize_value, parse_stacksize}
use libgomp.Env.{invalid, parsed}

-- The units of a size: a byte, and the powers of 1024.
pub data SizeUnit : Type 0 where
  bytes kilo mega giga : SizeUnit

abbrev pub unit_letter : SizeUnit → ℕ
unit_letter bytes = 98
unit_letter kilo = 107
unit_letter mega = 109
unit_letter giga = 103

abbrev pub unit_size : SizeUnit → ℕ
unit_size bytes = 1
unit_size kilo = 1024
unit_size mega = 1024 * 1024
unit_size giga = 1024 * 1024 * 1024

shifted_lem :
    (u : SizeUnit) (v : ℕ)
    → v < word64
    → shift_checked v (size_shift (unit_letter u))
      ≡ (if ltb (v * unit_size u) word64 then parsed (v * unit_size u) else invalid)
unfolding shift_checked size_shift
shifted_lem bytes v h = elim (dec_lt (v * 1) word64) [
  | yes l ↦
      let e : v * 1 % word64 ≡ v * 1 = omega arith in
      let q : v * 1 / 1 ≡ v = omega arith in
      rw (e, eq→== (v * 1 / 1) v q, lt→ltb (v * 1) word64 l) refl
  | no g ↦ rw (ne→== (v * 1 % word64 / 1) v (λ e. omega arith), not-lt→ltb (v * 1) word64 g) refl
]
shifted_lem kilo v h = elim (dec_lt (v * 1024) word64) [
  | yes l ↦
      let e : v * 1024 % word64 ≡ v * 1024 = omega arith in
      let q : v * 1024 / 1024 ≡ v = omega arith in
      rw (e, eq→== (v * 1024 / 1024) v q, lt→ltb (v * 1024) word64 l) refl
  | no g ↦
      rw (ne→== (v * 1024 % word64 / 1024) v (λ e. omega arith), not-lt→ltb (v * 1024) word64 g)
        refl
]
shifted_lem mega v h = elim (dec_lt (v * 1_048_576) word64) [
  | yes l ↦
      let e : v * 1_048_576 % word64 ≡ v * 1_048_576 = omega arith in
      let q : v * 1_048_576 / 1_048_576 ≡ v = omega arith in
      rw (e, eq→== (v * 1_048_576 / 1_048_576) v q, lt→ltb (v * 1_048_576) word64 l) refl
  | no g ↦
      rw
        (
          ne→== (v * 1_048_576 % word64 / 1_048_576) v (λ e. omega arith),
          not-lt→ltb (v * 1_048_576) word64 g,
        )
        refl
]
shifted_lem giga v h = elim (dec_lt (v * 1_073_741_824) word64) [
  | yes l ↦
      let e : v * 1_073_741_824 % word64 ≡ v * 1_073_741_824 = omega arith in
      let q : v * 1_073_741_824 / 1_073_741_824 ≡ v = omega arith in
      rw (e, eq→== (v * 1_073_741_824 / 1_073_741_824) v q, lt→ltb (v * 1_073_741_824) word64 l)
        refl
  | no g ↦
      rw
        (
          ne→== (v * 1_073_741_824 % word64 / 1_073_741_824) v (λ e. omega arith),
          not-lt→ltb (v * 1_073_741_824) word64 g,
        )
        refl
]

letter_lower : (u : SizeUnit) → lower (unit_letter u) ≡ unit_letter u
letter_lower bytes = refl
letter_lower kilo = refl
letter_lower mega = refl
letter_lower giga = refl

letter_other :
    (u : SizeUnit) (rest : List ℕ) → NoDigit (unit_letter u ∷ rest) × NoSpace (unit_letter u ∷ rest)
letter_other bytes rest = (refl, refl)
letter_other kilo rest = (refl, refl)
letter_other mega rest = (refl, refl)
letter_other giga rest = (refl, refl)

module _ (sp sp' sp'' ds : List ℕ) (u : SizeUnit) (a : AllSpaces sp) (a' : AllSpaces sp')
    (a'' : AllSpaces sp'') (d : IsDecimal ds) (fits : decimal_value 0 ds < word64) where
  abbrev pub behind : List ℕ
  behind = sp' ++ (unit_letter u ∷ sp'')

  abbrev pub exact_size : ℕ
  exact_size = decimal_value 0 ds * unit_size u

  -- For a number below 2 ^ 64 in decimal and the letter of a unit, with spaces around each,
  -- `parse_stacksize` returns the product of the number and the unit exactly if the product is
  -- below 2 ^ 64, and otherwise refuses the text.
  pub stacksize_lem :
      parse_stacksize (some (sp ++ (ds ++ behind)))
      ≡ (if ltb exact_size word64 then parsed exact_size else invalid)
  unfolding parse_stacksize stacksize_value unit_of
  stacksize_lem =
      rw
        (
          skip_lem sp (ds ++ behind) a (decimal-NoSpace ds behind d),
          decimal_not_end ds behind d,
          strtoul_lem ds behind d
              (space-NoDigit sp' (unit_letter u ∷ sp'') a' (letter_other u sp'').0) fits,
          skip_lem sp' (unit_letter u ∷ sp'') a' (letter_other u sp'').1,
          skip_all sp'' a'',
          letter_lower u,
        )
        (shifted_lem u (decimal_value 0 ds) fits)
