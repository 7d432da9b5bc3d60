-- ===== src/Sort/Step.antt =====
-- The body of the two loops of `insertion` (libgomp/loop.c), and what an exchange preserves.
use libgomp.Prelude.{
  ℕ, ◌≤◌, ◌<◌, ◌≡◌, List, Option, some, arith, ltb, if◌then◌else◌, length, get_elem?, set,
  length-set, get_or-set, ◌==◌, write, ◌>>=◌, ◌!◌, read_lem, write_lem,
}

-- The two arrays that are exchanged together.
pub record Arrays : Type 0 where
  pub map : List ℕ
  pub a : List ℕ

-- `exch(a[i], a[j]); exch(map[i], map[j]);`
unfoldable pub exch : ℕ → ℕ → List ℕ → Option (List ℕ)
exch i j xs = do x ← get_elem? xs i; y ← get_elem? xs j; ys ← write xs i y; write ys j x

unfoldable pub insertion_step : ℕ → ℕ → Arrays → Option Arrays
insertion_step i j s = do
  y ← get_elem? s.a j
  x ← get_elem? s.a i
  if ltb y x
      then (do a' ← exch i j s.a; map' ← exch i j s.map; some (record { map = map'; a = a' }))
      else some s

-- The exchange without the bounds checks.
abbrev pub swap : List ℕ → ℕ → ℕ → List ℕ
swap xs i j = set (set xs i (xs ! j)) j (xs ! i)

pub length-swap : (xs : List ℕ) (i j : ℕ) → length (swap xs i j) ≡ length xs
length-swap xs i j = cc (length-set (set xs i (xs ! j)) j (xs ! i), length-set xs i (xs ! j))

module _ (xs : List ℕ) (i j : ℕ) (hi : i < length xs) (hj : j < length xs) where
  pub exch-eq-swap : exch i j xs ≡ some (swap xs i j)
  unfolding exch
  exch-eq-swap = rw (
    read_lem xs i 0 hi,
    read_lem xs j 0 hj,
    write_lem xs i (xs ! j) hi,
    write_lem (set xs i (xs ! j)) j (xs ! i) (omega (arith, length-set xs i (xs ! j))),
  )

  pub get_or-swap :
      (k : ℕ) → swap xs i j ! k ≡ (if j == k then xs ! i else if i == k then xs ! j else xs ! k)
  get_or-swap k = ground (
    arith,
    length-set xs i (xs ! j),
    get_or-set (set xs i (xs ! j)) j k (xs ! i) 0,
    get_or-set xs i k (xs ! j) 0,
  )

-- What a sort of `a0` keeps: `map` numbers the cells of `a0` in the order of `a`, each once.
pub record Tracks (a0 : List ℕ) (n : ℕ) (s : Arrays) : Type 0 where
  pub size_a : length s.a ≡ n
  pub size_map : n ≤ length s.map
  pub entry : (k : ℕ) → k < n → (s.map ! k < n) × (s.a ! k ≡ a0 ! (s.map ! k))
  pub distinct : (j k : ℕ) → j < n → k < n → s.map ! j ≡ s.map ! k → j ≡ k
  pub onto : (v : ℕ) → v < n → (k : ℕ) × (k < n) × (s.map ! k ≡ v)

-- The arrays after an exchange of the cells `i` and `j`.
abbrev pub swapped : Arrays → ℕ → ℕ → Arrays
swapped s i j = record { map = swap s.map i j; a = swap s.a i j }

module _ (a0 : List ℕ) (n : ℕ) (s : Arrays) (t : Tracks a0 n s) (i j : ℕ) (hi : i < n)
    (hj : j < n) where
  pub a-swap :
      (k : ℕ) → swap s.a i j ! k ≡ (if j == k then s.a ! i else if i == k then s.a ! j else s.a ! k)
  a-swap = get_or-swap s.a i j (omega (arith, t.size_a)) (omega (arith, t.size_a))

  map-swap :
      (k : ℕ)
      → swap s.map i j ! k ≡ (if j == k then s.map ! i else if i == k then s.map ! j else s.map ! k)
  map-swap = get_or-swap s.map i j (omega (arith, t.size_map)) (omega (arith, t.size_map))

  -- Where the value `v` stands after the exchange.
  moved : ℕ → ℕ
  moved k = if j == k then i else if i == k then j else k

  pub swapped-Tracks : Tracks a0 n (swapped s i j)
  unfolding moved
  swapped-Tracks = record {
    size_a = omega (arith, length-swap s.a i j, t.size_a);
    size_map = omega (arith, length-swap s.map i j, t.size_map);
    entry = λ k h. ground (arith, a-swap k, map-swap k, t.entry i hi, t.entry j hj, t.entry k h);
    distinct = λ p q hp hq e. ground (
      arith,
      map-swap p,
      map-swap q,
      t.distinct p q hp hq,
      t.distinct i p hi hp,
      t.distinct j p hj hp,
      t.distinct i q hi hq,
      t.distinct j q hj hq,
      t.distinct i j hi hj,
    );
    onto = λ v h.
        let (k, lt, e) = t.onto v h in
        (moved k, ground arith, ground (arith, map-swap i, map-swap j, map-swap k));
  }

  -- The body neither faults nor does anything but order the two cells.
  pub insertion_step_lem :
      insertion_step i j s ≡ (if ltb (s.a ! j) (s.a ! i) then some (swapped s i j) else some s)
  unfolding insertion_step
  insertion_step_lem = rw (
    read_lem s.a j 0 (omega (arith, t.size_a)),
    read_lem s.a i 0 (omega (arith, t.size_a)),
    exch-eq-swap s.a i j (omega (arith, t.size_a)) (omega (arith, t.size_a)),
    exch-eq-swap s.map i j (omega (arith, t.size_map)) (omega (arith, t.size_map)),
  )
