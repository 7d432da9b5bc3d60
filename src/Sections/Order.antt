-- ===== src/Sections/Order.antt =====
-- The sections that the threads of a team get, in the order of their calls.
use libgomp.Prelude.{
  ℕ, zero, suc, ◌+◌, ◌%◌, ◌<◌, ◌≡◌, refl, ap, ◌∙◌, List, [], Option, none, some, arith, ltb, lt→ltb,
  not-lt→ltb, if◌then◌else◌, dec_lt, ◌>>=◌,
}
use libgomp.Prelude.Int.{ℤ, pos, ◌+ℤ◌, int_laws}
use libgomp.Word.{word32, word64}
use libgomp.IterLong.{LongShare, fetch_long, gomp_iter_dynamic_next}
use libgomp.Sections.{gomp_sections_init, gomp_sections_next, gomp_sections_start}

-- The work share after `m` calls, the first of which is `GOMP_sections_start`.
abbrev pub after_sections : ℕ → ℕ → Option LongShare
after_sections count zero = none
after_sections count (suc m) = do
  (section, ws) ← gomp_sections_start count [] (after_sections count m)
  some ws

abbrev advanced : ℕ → ℕ → LongShare
advanced count m = record (gomp_sections_init count) { next = pos (m + 1) }

next_lem :
    (count m : ℕ) (seen : List ℤ)
    → count + 1 < word32
    → gomp_sections_next seen (advanced count m)
      ≡ some (if ltb m count then suc m else 0, advanced count (suc m))
unfolding gomp_sections_next gomp_iter_dynamic_next fetch_long gomp_sections_init
next_lem count m seen h =
    let e : pos (m + 1) +ℤ pos 1 ≡ pos (suc m + 1) = omega int_laws in
    elim (dec_lt m count) [
      | yes l ↦
          let s : (m + 1) % word64 % word32 ≡ suc m = omega arith in
          rw (lt→ltb (m + 1 + 0) (count + 1 + 0) (omega arith), lt→ltb m count l, e, s) refl
      | no g ↦
          rw (not-lt→ltb (m + 1 + 0) (count + 1 + 0) (omega arith), not-lt→ltb m count g, e) refl
    ]

start_lem :
    (count m : ℕ) (seen : List ℤ)
    → count + 1 < word32
    → gomp_sections_start count seen (after_sections count m)
      ≡ gomp_sections_next seen (advanced count m)
unfolding gomp_sections_start gomp_sections_init
start_lem count zero seen h = refl
start_lem count (suc m) seen h =
    ap (λ r. gomp_sections_start count seen (r >>= λ (section, ws). some ws))
      (start_lem count m [] h ∙ next_lem count m [] h)

sections_start_lem :
    (count m : ℕ) (seen : List ℤ)
    → count + 1 < word32
    → gomp_sections_start count seen (after_sections count m)
      ≡ some (if ltb m count then suc m else 0, advanced count (suc m))
sections_start_lem count m seen h = start_lem count m seen h ∙ next_lem count m seen h

pub section_in_turn :
    (count m : ℕ) (seen : List ℤ)
    → count + 1 < word32
    → (gomp_sections_start count seen (after_sections count m) >>= λ (section, ws). some section)
      ≡ some (if ltb m count then suc m else 0)
section_in_turn count m seen h =
    ap (λ r. r >>= λ (section, ws). some section) (sections_start_lem count m seen h)
