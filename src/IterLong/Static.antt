-- ===== src/IterLong/Static.antt =====
-- The static schedule over `long` (libgomp/iter.c), up and down: which thread gets which values.
use libgomp.Prelude.{
  ℕ, suc, ◌+◌, ◌-◌, ◌^◌, ◌≤◌, ◌<◌, ◌≡◌, refl, ap, ◌∙◌, none, some, arith, ne→==, not-le→leb, le→leb,
  dec_lt, true,
}
use mathlib.Core.Path.{subst}
use libgomp.Prelude.Int.{ℤ, pos, ◌+ℤ◌, IsLong}
use libgomp.IterUll.Static.{block_start, block_start_end, block_start_le, block_exact, find_block}
use libgomp.IterUll.Cover.{block_start_mono}
use libgomp.IterLong.{LongShare, LongNext, eq_ℤ, count_long, block_long, gomp_iter_static_next}
use libgomp.IterLong.Count.{
  IsLoop, Shape, loop-Shape, size, dist, value_long, count-lt, to_actual_lem, Within, value-Within,
  before-count, value_apart,
}

-- The call returns a range that holds the value `v`.
abbrev pub ServesLong : ℕ → ℕ → ℕ → LongShare → ℤ → Type 0
ServesLong nthreads i trip ws v =
    (s : ℤ) × (e : ℤ) × ((gomp_iter_static_next nthreads i trip ws).range ≡ some (s, e))
    × Within s v e

module _ (ws : LongShare) (l : IsLoop ws) (nthreads : ℕ) (several : 1 < nthreads)
    (start_fits : IsLong ws.next) (past_fits : IsLong (ws.end +ℤ ws.incr)) where
  abbrev shape : Shape ws (size ws.incr) (dist ws.next ws.end)
  shape = loop-Shape ws l

  abbrev n : ℕ
  n = count_long ws

  n-lt : n < 2 ^ 63
  n-lt = count-lt ws (size ws.incr) (dist ws.next ws.end) shape

  module _ (whole : ws.chunk_size ≡ pos 0) where
    block_run :
        (i : ℕ)
        → i < nthreads
        → gomp_iter_static_next nthreads i 0 ws
          ≡ block_long ws 0 n (block_start n nthreads i, block_start n nthreads (suc i))
    unfolding gomp_iter_static_next
    block_run i h =
        let none_given : eq_ℤ ws.chunk_size (pos 0) ≡ true = ap (λ z. eq_ℤ z (pos 0)) whole in
        rw (
          ne→== nthreads 1 (omega arith),
          none_given,
          block_exact n nthreads (omega arith) (omega (arith, n-lt)) i h,
        )

    nonempty_run :
        (i : ℕ)
        → i < nthreads
        → block_start n nthreads i < block_start n nthreads (suc i)
        → (gomp_iter_static_next nthreads i 0 ws).range
          ≡ some (
            value_long ws (block_start n nthreads i),
            value_long ws (block_start n nthreads (suc i)),
          )
    unfolding block_long
    nonempty_run i h lt =
        ap (λ (r : LongNext). r.range) (block_run i h)
        ∙ rw
            (
              not-le→leb (block_start n nthreads (suc i)) (block_start n nthreads i) (omega arith),
              to_actual_lem ws (size ws.incr) (dist ws.next ws.end) shape (block_start n nthreads i)
                  (block_start_le n nthreads (omega arith) (omega (arith, n-lt)) i (omega arith))
                  start_fits past_fits,
              to_actual_lem ws (size ws.incr) (dist ws.next ws.end) shape
                  (block_start n nthreads (suc i))
                  (block_start_le n nthreads (omega arith) (omega (arith, n-lt)) (suc i) h)
                  start_fits past_fits,
            )
            refl

    empty_run :
        (i : ℕ)
        → i < nthreads
        → ¬ (block_start n nthreads i < block_start n nthreads (suc i))
        → (gomp_iter_static_next nthreads i 0 ws).range ≡ none
    unfolding block_long
    empty_run i h ge =
        ap (λ (r : LongNext). r.range) (block_run i h)
        ∙ rw (le→leb (block_start n nthreads (suc i)) (block_start n nthreads i) (omega arith)) refl

    -- In a loop over `long`, up or down, whose end is not behind its start, whose distance plus
    -- the size of its step is below 2 ^ 63, and whose start and end plus step fit in a `long`,
    -- shared without a chunk size by more than one thread, each value of the loop variable
    -- between the start and the end lies in the range that some thread of the team gets on its
    -- trip 0.
    pub static_long_covers :
        (x : ℕ)
        → Within ws.next (value_long ws x) ws.end
        → (i : ℕ) × (i < nthreads) × ServesLong nthreads i 0 ws (value_long ws x)
    static_long_covers x w =
        let (i, h, a, b) = find_block n nthreads (omega arith) (omega (arith, n-lt)) nthreads x (
          omega (
            arith,
            block_start_end n nthreads (omega arith) (omega (arith, n-lt)),
            before-count ws (size ws.incr) (dist ws.next ws.end) shape x w,
          )) in
        (
          i,
          h,
          (
            value_long ws (block_start n nthreads i),
            value_long ws (block_start n nthreads (suc i)),
            nonempty_run i h (omega arith),
            value-Within ws (size ws.incr) (dist ws.next ws.end) shape (block_start n nthreads i) x
                (block_start n nthreads (suc i)) a b,
          ),
        )

    served_block :
        (i : ℕ) (v : ℤ)
        → i < nthreads
        → ServesLong nthreads i 0 ws v
        → (block_start n nthreads i < block_start n nthreads (suc i))
          × Within
              (value_long ws (block_start n nthreads i))
              v
              (value_long ws (block_start n nthreads (suc i)))
    served_block i v h (s, e, r, w) =
        elim (dec_lt (block_start n nthreads i) (block_start n nthreads (suc i))) [
          | yes lt ↦
              let same : (s, e) ≡ (
                value_long ws (block_start n nthreads i),
                value_long ws (block_start n nthreads (suc i)),
              ) =
                cc (r, nonempty_run i h lt) in
              (lt, subst (λ (p : ℤ × ℤ). Within p.0 v p.1) same w)
          | no ge ↦ absurd (cc (r, empty_run i h ge))
        ]

    -- In a loop over `long`, up or down, whose end is not behind its start, whose distance plus
    -- the size of its step is below 2 ^ 63, and whose start and end plus step fit in a `long`,
    -- shared without a chunk size by more than one thread, no value lies in the ranges that two
    -- different threads of the team get on their trip 0.
    pub static_long_disjoint :
        (i j : ℕ) (v : ℤ)
        → i < j
        → j < nthreads
        → ServesLong nthreads i 0 ws v
        → ¬ ServesLong nthreads j 0 ws v
    static_long_disjoint i j v l h s t =
        let (lt, w) = served_block i v (omega arith) s in
        let (lt', w') = served_block j v h t in
        let e : suc i + (j - suc i) ≡ j = omega arith in
        let apart : block_start n nthreads (suc i) ≤ block_start n nthreads j =
          subst (λ k. block_start n nthreads (suc i) ≤ block_start n nthreads k) e
            (block_start_mono n nthreads (suc i) (j - suc i)) in
        value_apart ws (size ws.incr) (dist ws.next ws.end) shape (block_start n nthreads i)
          (block_start n nthreads (suc i)) (block_start n nthreads j)
          (block_start n nthreads (suc j)) v lt apart lt' w w'
