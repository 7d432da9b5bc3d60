-- ===== src/MapLoop/Table.antt =====
-- The table of the registered loops (libgomp/loop.c).
use libgomp.Prelude.{
  ℕ, suc, ◌+◌, ◌<◌, ◌≡◌, refl, ap, ◌∙◌, ◌≢◌, List, [], ◌∷◌, Option, none, some, Bool, arith, length,
  get_elem?, write, ◌>>=◌, lt→ltb,
}
use libgomp.MapLoop.{
  Loop, Globals, nr_loops, init_loop_struct, find_slot, omp_loop_register, omp_loop_unregister,
}

abbrev pub free_loop : Bool → Loop
free_loop override = record { name = none; taskmap = none; override = override }

-- Every slot of the table has a name.
abbrev pub AllNamed : List Loop → Type 0
AllNamed [] = Unit
AllNamed (l ∷ ls) = (l.name ≢ none) × AllNamed ls

-- The first slots, which have names, then a free slot, then the rest of the table.
abbrev pub table_of : List Loop → Bool → List Loop → List Loop
table_of [] override rest = free_loop override ∷ rest
table_of (l ∷ ls) override rest = l ∷ table_of ls override rest

abbrev pub filled_table : List Loop → Bool → List ℕ → List Loop → List Loop
filled_table [] override name rest = init_loop_struct (free_loop override) name ∷ rest
filled_table (l ∷ ls) override name rest = l ∷ filled_table ls override name rest

named_branch :
    (o : Option (List ℕ)) (x y : Option (ℕ × List Loop))
    → o ≢ none
    → (elim o [ none ↦ x | some _ ↦ y ]) ≡ y
named_branch none x y n = absurd (n refl)
named_branch (some m) x y n = refl

find_slot_lem :
    (before : List Loop) (override : Bool) (rest : List Loop) (i : ℕ) (name : List ℕ)
    → AllNamed before
    → find_slot (table_of before override rest) i name
      ≡ some (i + length before, filled_table before override name rest)
unfolding find_slot
find_slot_lem [] override rest i name a =
    ap (λ j. some (j, filled_table [] override name rest)) (omega arith)
find_slot_lem (l ∷ ls) override rest i name a =
    let later : i + 1 + length ls ≡ i + suc (length ls) = omega arith in
    named_branch l.name _ _ a.0
    ∙ ap (λ m. m >>= λ (o : ℕ × List Loop). some (o.0, l ∷ o.1))
        (find_slot_lem ls override rest (i + 1) name a.1)
    ∙ ap (λ j. some (j, l ∷ filled_table ls override name rest)) later

find_slot_full : (ls : List Loop) (i : ℕ) (name : List ℕ) → AllNamed ls → find_slot ls i name ≡ none
unfolding find_slot
find_slot_full [] i name a = refl
find_slot_full (l ∷ ls) i name a =
    named_branch l.name _ _ a.0
    ∙ ap (λ m. m >>= λ (o : ℕ × List Loop). some (o.0, l ∷ o.1))
        (find_slot_full ls (i + 1) name a.1)

read_filled :
    (before : List Loop) (override : Bool) (rest : List Loop) (name : List ℕ)
    → get_elem? (filled_table before override name rest) (length before)
      ≡ some (init_loop_struct (free_loop override) name)
read_filled [] override rest name = refl
read_filled (l ∷ ls) override rest name = read_filled ls override rest name

write_filled :
    (before : List Loop) (override : Bool) (rest : List Loop) (name : List ℕ)
    → write (filled_table before override name rest) (length before) (free_loop override)
      ≡ some (table_of before override rest)
write_filled [] override rest name = refl
write_filled (l ∷ ls) override rest name =
    ap (λ m. m >>= λ ys. some (l ∷ ys)) (write_filled ls override rest name)

module _ (g : Globals) (before rest : List Loop) (override : Bool) (name : List ℕ)
    (named : AllNamed before) (inside : length before < nr_loops) where
  abbrev with_loops : List Loop → Globals
  with_loops ls = record g { loops = ls }

  -- If a table begins with fewer than 32 named slots and a free one without a map follows,
  -- `omp_loop_register` returns the number of that slot, names it, and changes nothing else.
  pub register_first :
      omp_loop_register name (with_loops (table_of before override rest))
      ≡ some (length before, with_loops (filled_table before override name rest))
  unfolding omp_loop_register
  register_first =
      let here : 0 + length before ≡ length before = omega arith in
      ap (λ m. m >>= λ (o : ℕ × List Loop). some (o.0, with_loops o.1))
        (find_slot_lem before override rest 0 name named)
      ∙ ap (λ i. some (i, with_loops (filled_table before override name rest))) here

  -- If a table begins with fewer than 32 named slots and a free one without a map follows,
  -- `omp_loop_unregister` of the number that `omp_loop_register` returns does not fail and
  -- restores the state.
  pub register-unregister :
      (omp_loop_register name (with_loops (table_of before override rest)) >>= λ o.
      omp_loop_unregister o.0 o.1)
      ≡ some (with_loops (table_of before override rest))
  unfolding omp_loop_unregister
  register-unregister = rw (
    register_first,
    lt→ltb (length before) nr_loops inside,
    read_filled before override rest name,
    write_filled before override rest name,
  )

-- If every slot has a name, `omp_loop_register` aborts.
pub register_full :
    (g : Globals) (name : List ℕ) → AllNamed g.loops → omp_loop_register name g ≡ none
unfolding omp_loop_register
register_full g name a =
    ap (λ m. m >>= λ (o : ℕ × List Loop). some (o.0, record g { loops = o.1 }))
      (find_slot_full g.loops 0 name a)
