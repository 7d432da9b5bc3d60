-- ===== src/Binlpt/Steps.antt =====
-- What the pieces of the main loop of `binlpt_balance` (libgomp/loop.c) do.
use libgomp.Prelude.{
  ℕ, ◌+◌, ◌-◌, ◌≤◌, ◌<◌, ◌≡◌, refl, List, arith, ◌==◌, if◌then◌else◌, ◌!◌, length, set, length-set,
  get_or-set, write_lem, read_lem, Returns, Returns-mono, for_up_inv,
}
use libgomp.Word.{word32, add32_exact}
use libgomp.Binlpt.Owned.{Assigned}
use libgomp.Binlpt.{least_step, least_loaded, assign}

-- The thread `t` is least loaded among those below `j`.
abbrev pub IsLeast : List ℕ → ℕ → ℕ → Type 0
IsLeast load j t = (t < j) × ((u : ℕ) → u < j → load ! t ≤ load ! u)

least_step-IsLeast :
    (load : List ℕ) (j t : ℕ)
    → j < length load
    → IsLeast load j t
    → Returns (least_step load j t) (IsLeast load (j + 1))
unfolding least_step
least_step-IsLeast load j t h p =
    rw (read_lem load j 0 h, read_lem load t 0 (omega (arith, p.0)))
      (ground (arith, p.0), λ u l. ground (arith, p.1 u))

-- For at least one thread and an array with a load for each, the search returns a thread of the
-- team whose load is the least.
pub least_loaded-IsLeast :
    (load : List ℕ) (nthreads : ℕ)
    → 0 < nthreads
    → nthreads ≤ length load
    → Returns (least_loaded load nthreads) (IsLeast load nthreads)
unfolding least_loaded
least_loaded-IsLeast load nthreads pos fits =
    for_up_inv (IsLeast load) (least_step load) 1 nthreads
      (λ j t l u p. least_step-IsLeast load j t (omega arith) p) (nthreads - 1) 1 0 (omega arith)
      (omega arith) (omega arith, λ u h. ground arith)

module _ (off size tid : ℕ) (map : List ℕ) (fits : off + size ≤ length map)
    (small : length map < word32) where
  -- `j` iterations of the chunk are assigned.
  record Assigning (j : ℕ) (m : List ℕ) : Type 0 where
    width : length m ≡ length map
    part : Assigned map off (off + j) tid m

  assign_step :
      (j : ℕ) (m : List ℕ) → j < size → Assigning j m → Assigning (j + 1) (set m (off + j) tid)
  assign_step j m h a = record {
    width = omega (arith, length-set m (off + j) tid, a.width);
    part = record {
      below = λ x p. ground (arith, written x, a.part.below x p);
      inside = λ x p q. ground (arith, written x, a.part.inside x p);
      above = λ x p. ground (arith, written x, a.part.above x);
    };
  }
    where
      written : (x : ℕ) → set m (off + j) tid ! x ≡ (if off + j == x then tid else m ! x)
      written x = get_or-set m (off + j) x tid 0 (omega (arith, a.width))

  pub assign_lem :
      Returns
        (assign off size tid map)
        (λ m. (length m ≡ length map) × Assigned map off (off + size) tid m)
  unfolding assign
  assign_lem =
      Returns-mono (Assigning size) _ _ (λ m a. (a.width, a.part))
        (for_up_inv Assigning _ 0 size
          (λ j m l u a.
            rw (add32_exact off j (omega arith), write_lem m (off + j) tid (omega (arith, a.width)))
              (assign_step j m u a))
          size 0 map (omega arith) (omega arith)
          (record {
            width = refl;
            part = record {
              below = λ x p. refl;
              inside = λ x p q. absurd (omega arith);
              above = λ x p. refl;
            };
          }))
