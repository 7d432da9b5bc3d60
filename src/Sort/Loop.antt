-- ===== src/Sort/Loop.antt =====
-- `insertion` and `sort` (libgomp/loop.c) and their invariants.
use libgomp.Prelude.{
  ℕ, zero, suc, ◌+◌, ◌-◌, ◌≤◌, ◌<◌, ◌≡◌, List, Option, some, arith, none, write_out, set, lt→ltb,
  not-lt→ltb, dec_lt, ap, if◌then◌else◌, length, get_or-set, length-set, write, write_lem, ◌>>=◌,
  Returns, Returns-bind, Returns-mono, ◌!◌, for_up, for_up_inv, for_up_zero, ◌==◌,
}
use mathlib.Core.Path.{subst}
use native.Mathlib.Nat.{le_of_eq, zero-sub}
use libgomp.Word.{word32, sub32, sub32_exact}
use libgomp.Sort.Step.{
  Arrays, insertion_step, Tracks, swapped, a-swap, insertion_step_lem, swapped-Tracks,
}

-- `for (j = i + 1; j < n; j++)`
unfoldable pub insertion_row : ℕ → ℕ → Arrays → Option Arrays
insertion_row n i s = for_up (n - (i + 1)) (i + 1) (insertion_step i) s

-- `for (i = 0; i < (n - 1); i++)`, with the unsigned `n - 1`
unfoldable pub insertion : ℕ → Arrays → Option Arrays
insertion n s = for_up (sub32 n 1) 0 (insertion_row n) s

-- `for (i = 0; i < n; i++) map[i] = i;`
unfoldable pub init_map : ℕ → List ℕ → Option (List ℕ)
init_map n map = for_up n 0 (λ i m. write m i i) map

unfoldable pub sort : List ℕ → ℕ → List ℕ → Option Arrays
sort a n map = do map' ← init_map n map; insertion n (record { map = map'; a = a })

-- The cells before `i` are final, and `i` holds the least of those from `i` to before `j`.
record Ordered (a0 : List ℕ) (n i j : ℕ) (s : Arrays) : Type 0 where
  tracks : Tracks a0 n s
  final : (p q : ℕ) → p < i → p ≤ q → q < n → s.a ! p ≤ s.a ! q
  least : (q : ℕ) → i ≤ q → q < j → s.a ! i ≤ s.a ! q

module _ (a0 : List ℕ) (n : ℕ) where
  swapped-Ordered :
      (i j : ℕ) (s : Arrays)
      → i < j
      → j < n
      → s.a ! j < s.a ! i
      → Ordered a0 n i j s
      → Ordered a0 n i (j + 1) (swapped s i j)
  swapped-Ordered i j s hi hj lt o = record {
    tracks = swapped-Tracks a0 n s o.tracks i j (omega arith) hj;
    final = λ p q x y z. ground (
      arith,
      sw p,
      sw q,
      o.final p q x y z,
      o.final p i x (omega arith) (omega arith),
      o.final p j x (omega arith) hj,
    );
    least = λ q x y. ground (arith, sw q, sw i, o.least q);
  }
    where
      sw :
          (k : ℕ)
          → (swapped s i j).a ! k
            ≡ (if j == k then s.a ! i else if i == k then s.a ! j else s.a ! k)
      sw = a-swap a0 n s o.tracks i j (omega arith) hj

  step-Ordered :
      (i j : ℕ) (s : Arrays)
      → i < j
      → j < n
      → Ordered a0 n i j s
      → Returns (insertion_step i j s) (Ordered a0 n i (j + 1))
  step-Ordered i j s hi hj o =
      rw (insertion_step_lem a0 n s o.tracks i j (omega arith) hj)
        (elim (dec_lt (s.a ! j) (s.a ! i)) [
          | yes lt ↦ rw (lt→ltb (s.a ! j) (s.a ! i) lt) (swapped-Ordered i j s hi hj lt o)
          | no ge ↦ rw (not-lt→ltb (s.a ! j) (s.a ! i) ge) (record {
            tracks = o.tracks;
            final = o.final;
            least = λ q x y. ground (arith, o.least q x);
          })
        ])

  -- Entering the row of `i`, the cell `i` is trivially the least of those seen.
  abbrev Entered : ℕ → Arrays → Type 0
  Entered i s = Ordered a0 n i (i + 1) s

  row-Entered :
      (i : ℕ) (s : Arrays)
      → i + 1 < n
      → Entered i s
      → Returns (insertion_row n i s) (Entered (i + 1))
  unfolding insertion_row
  row-Entered i s h o =
      Returns-mono (Ordered a0 n i n) (Entered (i + 1))
        (for_up (n - (i + 1)) (i + 1) (insertion_step i) s)
        (λ s' o'. record {
          tracks = o'.tracks;
          final = λ p q x y z. ground (arith, o'.final p q, o'.least q);
          least = λ q x y. le_of_eq (ap (λ k. s'.a ! k) (omega arith));
        })
        (for_up_inv (Ordered a0 n i) (insertion_step i) (i + 1) n
          (λ j s' l u o'. step-Ordered i j s' (omega arith) u o') (n - (i + 1)) (i + 1) s
          (omega arith) (omega arith) o)

-- `a` is sorted, and `map` says where its cells stood in `a0`.
pub record Sorts (a0 : List ℕ) (n : ℕ) (s : Arrays) : Type 0 where
  pub tracks : Tracks a0 n s
  pub sorted : (p q : ℕ) → p ≤ q → q < n → s.a ! p ≤ s.a ! q

row_empty : (i : ℕ) (s : Arrays) → insertion_row 0 i s ≡ some s
unfolding insertion_row
row_empty i s = rw (zero-sub (i + 1)) (for_up_zero (i + 1) (insertion_step i) s)

-- With no cell the unsigned bound `n - 1` makes 2 ^ 32 - 1 rounds, all of them empty.
insertion_empty : (a0 : List ℕ) (s : Arrays) → Tracks a0 0 s → Returns (insertion 0 s) (Sorts a0 0)
unfolding insertion
insertion_empty a0 s t =
    for_up_inv (λ _. Sorts a0 0) (insertion_row 0) 0 (sub32 0 1)
      (λ i s' l u o. rw (row_empty i s') o) (sub32 0 1) 0 s (omega arith) (omega arith)
      (record { tracks = t; sorted = λ p q x y. absurd (omega arith) })

module _ (a0 : List ℕ) (n : ℕ) (small : n < word32) where
  insertion_filled : (s : Arrays) → 0 < n → Tracks a0 n s → Returns (insertion n s) (Sorts a0 n)
  unfolding insertion
  insertion_filled s h t = rw (sub32_exact n 1 h small) (
      Returns-mono (Entered a0 n (n - 1)) (Sorts a0 n) (for_up (n - 1) 0 (insertion_row n) s)
        (λ s' o. record {
          tracks = o.tracks;
          sorted = λ p q x y. elim (dec_lt p (n - 1)) [
            | yes lt ↦ o.final p q lt x y
            | no ge ↦ le_of_eq (ap (λ k. s'.a ! k) (omega arith))
          ];
        })
        (for_up_inv (Entered a0 n) (insertion_row n) 0 (n - 1)
          (λ i s' l u o. row-Entered a0 n i s' (omega arith) o) (n - 1) 0 s (omega arith)
          (omega arith)
          (record {
            tracks = t;
            final = λ p q x y z. absurd (omega arith);
            least = λ q x y. le_of_eq (ap (λ k. s.a ! k) (omega arith));
          })))

  pub insertion-Sorts : (s : Arrays) → Tracks a0 n s → Returns (insertion n s) (Sorts a0 n)
  insertion-Sorts s t = elim (dec_lt 0 n) [
    | yes h ↦ insertion_filled s h t
    | no h ↦
        let e : 0 ≡ n = omega arith in
        subst (λ k. Tracks a0 k s → Returns (insertion k s) (Sorts a0 k)) e (insertion_empty a0 s) t
  ]

-- The map starts as the identity.
init_map_lem :
    (n : ℕ) (map : List ℕ)
    → n ≤ length map
    → Returns (init_map n map) (λ m. (n ≤ length m) × ((k : ℕ) → k < n → m ! k ≡ k))
unfolding init_map
init_map_lem n map e =
    for_up_inv (λ i m. (n ≤ length m) × ((k : ℕ) → k < i → m ! k ≡ k)) (λ i m. write m i i) 0 n
      (λ i m l u p.
        rw (write_lem m i i (omega arith))
          (omega (arith, length-set m i i), λ k h. ground (arith, get_or-set m i k i 0, p.1 k)))
      n 0 map (omega arith) (omega arith) (e, λ k h. absurd (omega arith))

-- For fewer than 2 ^ 32 cells and a map with room for as many, `sort` returns the array in
-- ascending order, with a map that numbers the cells of the original array in that order, each
-- number exactly once.
pub sort-Sorts :
    (a map : List ℕ) (n : ℕ)
    → n < word32
    → length a ≡ n
    → n ≤ length map
    → Returns (sort a n map) (Sorts a n)
unfolding sort
sort-Sorts a map n small ea em =
    Returns-bind (λ m. (n ≤ length m) × ((k : ℕ) → k < n → m ! k ≡ k)) (Sorts a n) (init_map n map)
      (λ m. insertion n (record { map = m; a = a })) (init_map_lem n map em)
      (λ m p.
        insertion-Sorts a n small (record { map = m; a = a })
          (record {
            size_a = ea;
            size_map = p.0;
            entry = λ k h. (rw (p.1 k h) h, rw (p.1 k h));
            distinct = λ j k hj hk e. omega (arith, p.1 j hj, p.1 k hk);
            onto = λ v h. (v, h, p.1 v h);
          }))

-- A map with too few cells is written past its end.
init_map_past :
    (n i : ℕ) (m : List ℕ)
    → i ≤ length m
    → length m < i + n
    → for_up n i (λ k r. write r k k) m ≡ none
unfolding for_up
init_map_past zero i m l h = absurd (omega arith)
init_map_past (suc n) i m l h = elim (dec_lt i (length m)) [
  | yes p ↦ rw (write_lem m i i p) (
      init_map_past n (i + 1) (set m i i) (omega (arith, length-set m i i))
        (omega (arith, length-set m i i)))
  | no q ↦ rw (write_out m i i (omega arith))
]

pub sort_fault : (a map : List ℕ) (n : ℕ) → length map < n → sort a n map ≡ none
unfolding sort init_map
sort_fault a map n h = rw (init_map_past n 0 map (omega arith) (omega arith))
