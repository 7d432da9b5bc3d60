-- ===== src/Env/Policies.antt =====
-- `parse_bind_var` (libgomp/env.c) on lists of policies.
use libgomp.Prelude.{
  ℕ, zero, suc, ◌≤◌, ◌≡◌, refl, List, [], ◌∷◌, ◌++◌, map, length, some, false, arith, if◌then◌else◌,
}
use libgomp.Env.Text.{skip_spaces, strip_name}
use libgomp.Env.{Parsed, invalid, parsed}
use libgomp.Env.Numbers.{AllSpaces, NoSpace, skip_lem}
use libgomp.Env.Lists.{append_length}
use libgomp.Env.Bind.{
  Bind, bind_false, bind_true, bind_master, bind_close, bind_spread, bind_name, find_bind,
  place_kinds, all_kinds, is_single, more_binds, bind_rest, parse_bind_var,
}

-- A policy with spaces around it.
pub record Policy : Type 0 where
  pub before : List ℕ
  pub kind : Bind
  pub after : List ℕ

pub record IsSpaced (p : Policy) : Type 0 where
  pub spaces_before : AllSpaces p.before
  pub spaces_after : AllSpaces p.after

abbrev pub policy_text : Policy → List ℕ → List ℕ
policy_text p rest = p.before ++ (bind_name p.kind ++ (p.after ++ rest))

find_any :
    (kind : Bind) (rest : List ℕ) → find_bind all_kinds (bind_name kind ++ rest) ≡ some (kind, rest)
unfolding find_bind strip_name
find_any bind_false rest = refl
find_any bind_true rest = refl
find_any bind_master rest = refl
find_any bind_close rest = refl
find_any bind_spread rest = refl

find_place :
    (kind : Bind) (rest : List ℕ)
    → is_single kind ≡ false
    → find_bind place_kinds (bind_name kind ++ rest) ≡ some (kind, rest)
unfolding find_bind strip_name
find_place bind_false rest s = absurd (cc s)
find_place bind_true rest s = absurd (cc s)
find_place bind_master rest s = refl
find_place bind_close rest s = refl
find_place bind_spread rest s = refl

name-NoSpace : (kind : Bind) (rest : List ℕ) → NoSpace (bind_name kind ++ rest)
name-NoSpace bind_false rest = refl
name-NoSpace bind_true rest = refl
name-NoSpace bind_master rest = refl
name-NoSpace bind_close rest = refl
name-NoSpace bind_spread rest = refl

skip_before :
    (p : Policy) (rest : List ℕ)
    → IsSpaced p
    → skip_spaces (policy_text p rest) ≡ bind_name p.kind ++ (p.after ++ rest)
skip_before p rest h =
    skip_lem p.before (bind_name p.kind ++ (p.after ++ rest)) h.spaces_before
      (name-NoSpace p.kind (p.after ++ rest))

-- The policies behind the first, each after a comma.
abbrev pub policies_text : List Policy → List ℕ
policies_text [] = []
policies_text (p ∷ ps) = 44 ∷ policy_text p (policies_text ps)

abbrev pub AllPlaces : List Policy → Type 0
AllPlaces [] = Unit {0}
AllPlaces (p ∷ ps) = IsSpaced p × ((is_single p.kind ≡ false) × AllPlaces ps)

policies-NoSpace : (ps : List Policy) → NoSpace (policies_text ps)
policies-NoSpace [] = tt
policies-NoSpace (p ∷ ps) = refl

abbrev pub policy_kind : Policy → Bind
policy_kind p = p.kind

more_binds_lem :
    (ps : List Policy) (fuel : ℕ)
    → AllPlaces ps
    → length ps ≤ fuel
    → more_binds fuel (policies_text ps) ≡ some (map policy_kind ps)
unfolding more_binds
more_binds_lem [] fuel a h = refl
more_binds_lem (p ∷ ps) zero a h = absurd (omega arith)
more_binds_lem (p ∷ ps) (suc fuel) (spaced, (single, a)) h =
    rw
      (
        skip_before p (policies_text ps) spaced,
        find_place p.kind (p.after ++ policies_text ps) single,
        skip_lem p.after (policies_text ps) spaced.spaces_after (policies-NoSpace ps),
        more_binds_lem ps fuel a (omega arith),
      )
      refl

enough : (ps : List Policy) → length ps ≤ length (policies_text ps)
enough [] = omega arith
enough (p ∷ ps) = omega (
  arith,
  enough ps,
  append_length p.before (bind_name p.kind ++ (p.after ++ policies_text ps)),
  append_length (bind_name p.kind) (p.after ++ policies_text ps),
  append_length p.after (policies_text ps),
)

-- One policy, or the array of them if there are more, which the first one must allow.
abbrev pub policies_read : Bind → List Bind → Parsed (Bind × List Bind)
policies_read kind [] = parsed (kind, [])
policies_read kind (x ∷ values) =
    if is_single kind then invalid else parsed (kind, kind ∷ x ∷ values)

rest_lem :
    (kind : Bind) (ps : List Policy)
    → AllPlaces ps
    → bind_rest kind (policies_text ps) ≡ policies_read kind (map policy_kind ps)
unfolding bind_rest
rest_lem kind [] a = refl
rest_lem kind (p ∷ ps) a =
    rw (more_binds_lem (p ∷ ps) (length (policies_text (p ∷ ps))) a (enough (p ∷ ps))) refl

-- For a text of one or more names of policies in lower case, with spaces around each and commas
-- between them, where only the first may be false or true, `parse_bind_var` returns that policy
-- alone if it is the only one, and otherwise the first and all of them in their order, or refuses
-- the text if the first is false or true.
pub parse_bind_lem :
    (p : Policy) (ps : List Policy)
    → IsSpaced p
    → AllPlaces ps
    → parse_bind_var (some (policy_text p (policies_text ps)))
      ≡ policies_read p.kind (map policy_kind ps)
unfolding parse_bind_var
parse_bind_lem p ps h a =
    rw
      (
        skip_before p (policies_text ps) h,
        find_any p.kind (p.after ++ policies_text ps),
        skip_lem p.after (policies_text ps) h.spaces_after (policies-NoSpace ps),
        parse_bind_var,
      )
      (rest_lem p.kind ps a)
