-- ===== src/Env/Lists.antt =====
-- `parse_unsigned_long` and `parse_unsigned_long_list` (libgomp/env.c) on what they are meant to read.
use libgomp.Prelude.{
  ℕ, zero, suc, ◌/◌, ◌^◌, ◌≤◌, ◌<◌, ◌≡◌, refl, ap, ◌∙◌, List, [], ◌∷◌, ◌++◌, map, length, some,
  false, arith, lt→ltb,
}
use libgomp.Word.{word64}
use libgomp.Env.Text.{skip_spaces}
use libgomp.Env.{parsed, at_end, is_negative, parse_number, parse_more, parse_unsigned_long_list}
use libgomp.Env.Numbers.{
  AllSpaces, IsDecimal, decimal_value, NoDigit, NoSpace, skip_lem, decimal-NoSpace, space-NoDigit,
  strtoul_lem,
}

-- A number with spaces around it.
pub record Item : Type 0 where
  pub before : List ℕ
  pub digits : List ℕ
  pub after : List ℕ

abbrev pub item_value : Item → ℕ
item_value i = decimal_value 0 i.digits

pub record IsItem (i : Item) : Type 0 where
  pub spaces_before : AllSpaces i.before
  pub decimal : IsDecimal i.digits
  pub spaces_after : AllSpaces i.after
  pub positive : 0 < item_value i
  pub fits : item_value i < 2 ^ 63

abbrev pub item_text : Item → List ℕ → List ℕ
item_text i rest = i.before ++ (i.digits ++ (i.after ++ rest))

positive_long : (v : ℕ) → 0 < v → v < 2 ^ 63 → is_negative false v ≡ false
positive_long v p f = rw (lt→ltb v (word64 / 2) f) (ground arith)

pub decimal_not_end : (ds rest : List ℕ) → IsDecimal ds → at_end (ds ++ rest) ≡ false
decimal_not_end [] rest d = absurd d
decimal_not_end (c ∷ ds) rest d = refl

-- The rest of the text begins with neither a digit nor a space.
item_lem :
    (i : Item) (rest : List ℕ)
    → IsItem i
    → NoDigit rest
    → NoSpace rest
    → parse_number false (skip_spaces (item_text i rest)) ≡ some (item_value i, rest)
unfolding parse_number
item_lem i rest h n m =
    ap (λ t. parse_number false t)
      (skip_lem i.before (i.digits ++ (i.after ++ rest)) h.spaces_before
        (decimal-NoSpace i.digits (i.after ++ rest) h.decimal))
    ∙ rw
        (
          decimal_not_end i.digits (i.after ++ rest) h.decimal,
          strtoul_lem i.digits (i.after ++ rest) h.decimal
              (space-NoDigit i.after rest h.spaces_after n) (omega (arith, h.fits)),
          positive_long (item_value i) h.positive h.fits,
        )
        (ap (λ t. some (item_value i, t)) (skip_lem i.after rest h.spaces_after m))

-- The items behind the first, each after a comma.
abbrev pub more_text : List Item → List ℕ
more_text [] = []
more_text (i ∷ items) = 44 ∷ item_text i (more_text items)

abbrev pub AllItems : List Item → Type 0
AllItems [] = Unit {0}
AllItems (i ∷ items) = IsItem i × AllItems items

more-NoDigit : (items : List Item) → NoDigit (more_text items)
more-NoDigit [] = tt
more-NoDigit (i ∷ items) = refl

more-NoSpace : (items : List Item) → NoSpace (more_text items)
more-NoSpace [] = tt
more-NoSpace (i ∷ items) = refl

more_lem :
    (items : List Item) (fuel : ℕ)
    → AllItems items
    → length items ≤ fuel
    → parse_more fuel (more_text items) ≡ some (map item_value items)
unfolding parse_more
more_lem [] fuel a h = refl
more_lem (i ∷ items) zero a h = absurd (omega arith)
more_lem (i ∷ items) (suc fuel) a h =
    rw
      (
        item_lem i (more_text items) (a.0) (more-NoDigit items) (more-NoSpace items),
        more_lem items fuel (a.1) (omega arith),
      )
      refl

pub append_length : (xs ys : List ℕ) → length ys ≤ length (xs ++ ys)
append_length [] ys = omega arith
append_length (x ∷ xs) ys = omega (arith, append_length xs ys)

enough : (items : List Item) → length items ≤ length (more_text items)
enough [] = omega arith
enough (i ∷ items) = omega (
  arith,
  enough items,
  append_length i.before (i.digits ++ (i.after ++ more_text items)),
  append_length i.digits (i.after ++ more_text items),
  append_length i.after (more_text items),
)

-- `*p1stvalue`, and `*pvalues` if there is more than one item.
abbrev pub list_values : ℕ → List ℕ → ℕ × List ℕ
list_values v [] = (v, [])
list_values v (x ∷ values) = (v, v ∷ x ∷ values)

-- For one or more positive numbers below 2 ^ 63 in decimal, with spaces around each and commas
-- between them, `parse_unsigned_long_list` returns the first one, and all of them in their order if
-- there is more than one.
pub parse_list_lem :
    (i : Item) (items : List Item)
    → IsItem i
    → AllItems items
    → parse_unsigned_long_list (some (item_text i (more_text items)))
      ≡ parsed (list_values (item_value i) (map item_value items))
unfolding parse_unsigned_long_list
parse_list_lem i [] h a =
    rw (item_lem i (more_text []) h tt tt, more_lem [] 0 tt (omega arith), parse_unsigned_long_list)
      refl
parse_list_lem i (j ∷ items) h a =
    rw
      (
        item_lem i (more_text (j ∷ items)) h refl refl,
        more_lem (j ∷ items) (length (more_text (j ∷ items))) a (enough (j ∷ items)),
        parse_unsigned_long_list,
      )
      refl
