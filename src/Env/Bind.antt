-- ===== src/Env/Bind.antt =====
-- `parse_bind_var` (libgomp/env.c), which reads the policies of thread affinity.
use libgomp.Prelude.{
  ℕ, zero, suc, List, [], ◌∷◌, Option, none, some, Bool, true, false, not, ◌||◌, ◌==◌,
  if◌then◌else◌, length,
}
use libgomp.Env.Text.{skip_spaces, strip_name}
use libgomp.Env.{Parsed, absent, invalid, parsed}

-- `omp_proc_bind_t`
pub data Bind : Type 0 where
  bind_false bind_true bind_master bind_close bind_spread : Bind

-- The table `kinds` of the function: the name of each policy.
abbrev pub bind_name : Bind → List ℕ
bind_name bind_false = 102 ∷ 97 ∷ 108 ∷ 115 ∷ 101 ∷ []
bind_name bind_true = 116 ∷ 114 ∷ 117 ∷ 101 ∷ []
bind_name bind_master = 109 ∷ 97 ∷ 115 ∷ 116 ∷ 101 ∷ 114 ∷ []
bind_name bind_close = 99 ∷ 108 ∷ 111 ∷ 115 ∷ 101 ∷ []
bind_name bind_spread = 115 ∷ 112 ∷ 114 ∷ 101 ∷ 97 ∷ 100 ∷ []

-- The first of the policies whose name the text begins with, and what follows it.
unfoldable pub find_bind : List Bind → List ℕ → Option (Bind × List ℕ)
find_bind [] env = none
find_bind (kind ∷ kinds) env = elim (strip_name (bind_name kind) env) [
  | none ↦ find_bind kinds env
  | some rest ↦ some (kind, rest)
]

-- `i = 2` to 4
abbrev pub place_kinds : List Bind
place_kinds = bind_master ∷ bind_close ∷ bind_spread ∷ []

abbrev pub all_kinds : List Bind
all_kinds = bind_false ∷ bind_true ∷ place_kinds

-- Only one policy may be false or true.
abbrev pub is_single : Bind → Bool
is_single bind_false = true
is_single bind_true = true
is_single kind = false

-- The loop over the policies behind a comma, for at most `fuel` of them.
unfoldable pub more_binds : ℕ → List ℕ → Option (List Bind)
more_binds fuel [] = some []
more_binds zero (c ∷ env) = none
more_binds (suc fuel) (c ∷ env) =
    if not (c == 44) then none else elim (find_bind place_kinds (skip_spaces env)) [
      | none ↦ none
      | some (kind, rest) ↦ elim (more_binds fuel (skip_spaces rest)) [
        | none ↦ none
        | some values ↦ some (kind ∷ values)
      ]
    ]

-- What follows the first policy. An array of the policies is returned if there is more than one.
unfoldable pub bind_rest : Bind → List ℕ → Parsed (Bind × List Bind)
bind_rest kind [] = parsed (kind, [])
bind_rest kind (c ∷ env) =
    if not (c == 44) || is_single kind
    then invalid
    else elim (more_binds (length (c ∷ env)) (c ∷ env)) [
      | none ↦ invalid
      | some values ↦ parsed (kind, kind ∷ values)
    ]

unfoldable pub parse_bind_var : Option (List ℕ) → Parsed (Bind × List Bind)
parse_bind_var none = absent
parse_bind_var (some env) = elim (find_bind all_kinds (skip_spaces env)) [
  | none ↦ invalid
  | some (kind, rest) ↦ bind_rest kind (skip_spaces rest)
]
