-- ===== src/Env/Numbers.antt =====
-- The numbers that the parsers of libgomp/env.c read.
use libgomp.Prelude.{
  ℕ, ◌+◌, ◌-◌, ◌*◌, ◌<◌, ◌≡◌, refl, ap, ◌∙◌, List, [], ◌∷◌, ◌++◌, Bool, true, false, arith, ◌==◌,
  if◌then◌else◌, lt→ltb,
}
use libgomp.Word.{word64, sub64}
use libgomp.Env.Text.{
  isspace, skip_spaces, is_digit, read_digits, unsigned_part, after_spaces, strtoul,
}

abbrev pub AllSpaces : List ℕ → Type 0
AllSpaces [] = Unit {0}
AllSpaces (c ∷ r) = (isspace c ≡ true) × AllSpaces r

abbrev pub AllDigits : List ℕ → Type 0
AllDigits [] = Unit {0}
AllDigits (c ∷ r) = (is_digit c ≡ true) × AllDigits r

-- A number in decimal, with zeros before it or not.
abbrev pub IsDecimal : List ℕ → Type 0
IsDecimal [] = ⊥
IsDecimal (c ∷ r) = AllDigits (c ∷ r)

-- Its value, place by place.
abbrev pub decimal_value : ℕ → List ℕ → ℕ
decimal_value acc [] = acc
decimal_value acc (c ∷ r) = decimal_value (acc * 10 + (c - 48)) r

-- What may follow a number.
abbrev pub NoDigit : List ℕ → Type 0
NoDigit [] = Unit {0}
NoDigit (c ∷ r) = is_digit c ≡ false

abbrev pub NoSpace : List ℕ → Type 0
NoSpace [] = Unit {0}
NoSpace (c ∷ r) = isspace c ≡ false

pub skip_lem : (sp t : List ℕ) → AllSpaces sp → NoSpace t → skip_spaces (sp ++ t) ≡ t
unfolding skip_spaces
skip_lem [] [] a n = refl
skip_lem [] (c ∷ r) a n = rw n refl
skip_lem (c ∷ sp) t a n = rw (a.0) (skip_lem sp t (a.1) n)

pub skip_all : (sp : List ℕ) → AllSpaces sp → skip_spaces sp ≡ []
unfolding skip_spaces
skip_all [] a = refl
skip_all (c ∷ sp) a = rw (a.0) (skip_all sp (a.1))

read_lem :
    (acc : ℕ) (ds rest : List ℕ)
    → AllDigits ds
    → NoDigit rest
    → read_digits acc (ds ++ rest) ≡ (decimal_value acc ds, rest)
unfolding read_digits
read_lem acc [] [] a n = refl
read_lem acc [] (c ∷ r) a n = rw n refl
read_lem acc (c ∷ ds) rest a n = rw (a.0) (read_lem (acc * 10 + (c - 48)) ds rest (a.1) n)

pub digit_no_space : (c : ℕ) → is_digit c ≡ true → isspace c ≡ false
digit_no_space c h = ground arith

pub decimal-NoSpace : (ds rest : List ℕ) → IsDecimal ds → NoSpace (ds ++ rest)
decimal-NoSpace [] rest d = absurd d
decimal-NoSpace (c ∷ ds) rest d = digit_no_space c (d.0)

pub space-NoDigit : (sp rest : List ℕ) → AllSpaces sp → NoDigit rest → NoDigit (sp ++ rest)
space-NoDigit [] rest a n = n
space-NoDigit (c ∷ sp) rest a n = let h : isspace c ≡ true = a.0 in ground arith

-- `v`, or its negative, as `strtoul` returns it.
abbrev pub signed_value : Bool → ℕ → ℕ
signed_value minus v = if minus then sub64 0 v else v

part_lem :
    (minus : Bool) (nptr ds rest : List ℕ)
    → IsDecimal ds
    → NoDigit rest
    → decimal_value 0 ds < word64
    → unsigned_part minus nptr (ds ++ rest)
      ≡ record { value = signed_value minus (decimal_value 0 ds); rest = rest; range_error = false }
unfolding unsigned_part
part_lem minus nptr [] rest d n f = absurd d
part_lem minus nptr (c ∷ ds) rest d n f =
    rw (d.0, read_lem 0 (c ∷ ds) rest d n, lt→ltb (decimal_value 0 (c ∷ ds)) word64 f) refl

digit_no_sign : (c : ℕ) → is_digit c ≡ true → ((c == 45) ≡ false) × ((c == 43) ≡ false)
digit_no_sign c h = (ground arith, ground arith)

pub strtoul_lem :
    (ds rest : List ℕ)
    → IsDecimal ds
    → NoDigit rest
    → decimal_value 0 ds < word64
    → strtoul (ds ++ rest) ≡ record { value = decimal_value 0 ds; rest = rest; range_error = false }
unfolding strtoul after_spaces
strtoul_lem [] rest d n f = absurd d
strtoul_lem (c ∷ ds) rest d n f =
    ap (after_spaces (c ∷ ds ++ rest)) (skip_lem [] (c ∷ ds ++ rest) tt (digit_no_space c (d.0)))
    ∙ rw ((digit_no_sign c (d.0)).0, (digit_no_sign c (d.0)).1)
        (part_lem false (c ∷ ds ++ rest) (c ∷ ds) rest d n f)

pub strtoul_negative :
    (ds rest : List ℕ)
    → IsDecimal ds
    → NoDigit rest
    → decimal_value 0 ds < word64
    → strtoul (45 ∷ ds ++ rest)
      ≡ record { value = sub64 0 (decimal_value 0 ds); rest = rest; range_error = false }
unfolding strtoul after_spaces
strtoul_negative ds rest d n f =
    ap (after_spaces (45 ∷ ds ++ rest)) (skip_lem [] (45 ∷ ds ++ rest) tt refl)
    ∙ part_lem true (45 ∷ ds ++ rest) ds rest d n f
