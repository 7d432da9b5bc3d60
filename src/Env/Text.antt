-- ===== src/Env/Text.antt =====
-- What libgomp/env.c uses of the C library: `isspace`, `strtoul` with base 10, and `strncasecmp`
-- with the length of a name.
use libgomp.Prelude.{
  ℕ, ◌+◌, ◌-◌, ◌*◌, List, [], ◌∷◌, Option, none, some, Bool, true, false, not, ◌&&◌, ◌||◌, ◌==◌,
  ltb, leb, if◌then◌else◌,
}
use libgomp.Word.{word64, sub64}

abbrev pub isspace : ℕ → Bool
isspace c = c == 32 || (leb 9 c && leb c 13)

-- `while (isspace ((unsigned char) *env)) ++env;`
unfoldable pub skip_spaces : List ℕ → List ℕ
skip_spaces [] = []
skip_spaces (c ∷ r) = if isspace c then skip_spaces r else c ∷ r

abbrev pub is_digit : ℕ → Bool
is_digit c = leb 48 c && leb c 57

unfoldable pub read_digits : ℕ → List ℕ → ℕ × List ℕ
read_digits acc [] = (acc, [])
read_digits acc (c ∷ r) = if is_digit c then read_digits (acc * 10 + (c - 48)) r else (acc, c ∷ r)

-- The value, what follows the number, and whether `errno` is ERANGE.
pub record Strtoul : Type 0 where
  pub value : ℕ
  pub rest : List ℕ
  pub range_error : Bool

-- The digits of a number, negated if it has a minus sign. `nptr` is the whole text, which is left if
-- there are no digits.
unfoldable pub unsigned_part : Bool → List ℕ → List ℕ → Strtoul
unsigned_part minus nptr [] = record { value = 0; rest = nptr; range_error = false }
unsigned_part minus nptr (c ∷ r) =
    let v = (read_digits 0 (c ∷ r)).0 in
    if is_digit c
    then record {
      value = if ltb v word64 then (if minus then sub64 0 v else v) else word64 - 1;
      rest = (read_digits 0 (c ∷ r)).1;
      range_error = not (ltb v word64);
    }
    else record { value = 0; rest = nptr; range_error = false }

unfoldable pub after_spaces : List ℕ → List ℕ → Strtoul
after_spaces nptr [] = unsigned_part false nptr []
after_spaces nptr (c ∷ r) =
    if c == 45
    then unsigned_part true nptr r
    else if c == 43
    then unsigned_part false nptr r
    else unsigned_part false nptr (c ∷ r)

unfoldable pub strtoul : List ℕ → Strtoul
strtoul nptr = after_spaces nptr (skip_spaces nptr)

abbrev pub lower : ℕ → ℕ
lower c = if leb 65 c && leb c 90 then c + 32 else c

-- What follows the name, if the text begins with it in upper or lower case.
unfoldable pub strip_name : List ℕ → List ℕ → Option (List ℕ)
strip_name [] env = some env
strip_name (x ∷ name) [] = none
strip_name (x ∷ name) (c ∷ env) =
    let rest = strip_name name env in if lower c == x then rest else none
