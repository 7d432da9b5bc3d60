-- ===== src/IterUll/Dynamic.antt =====
-- The dynamic schedule of libgomp/iter_ull.c, under the lock and by compare-and-swap.
use libgomp.Prelude.{
  ℕ, ◌+◌, ◌-◌, ◌/◌, ◌%◌, ◌≤◌, ◌<◌, ◌≡◌, refl, sym, ◌∙◌, List, [], ◌∷◌, ◌++◌, Option, none, some,
  Bool, true, false, arith, ◌==◌, if◌then◌else◌, eq→==, ne→==, ℕ_discrete, Returns, ◌*◌, inl, inr,
  dec_le,
}
use Prim.Native.Nat.{min}
use libgomp.Word.{word64, add64, sub64, add64_exact, sub64_exact}
use libgomp.IterUll.{
  UllShare, Grab, clip, gomp_iter_ull_dynamic_next_locked, cas_chunk, gomp_iter_ull_dynamic_next,
}
use libgomp.IterUll.Tiles.{some_inj, TilesBy, Stops, take_all, Grabs, take_all-Tiles}

-- A dynamic loop that counts up.
pub record IsAscending (ws : UllShare) : Type 0 where
  pub up : ws.mode / 2 % 2 ≡ 0
  pub forward : ws.next ≤ ws.end
  pub fits : ws.end < word64
  pub some_chunk : 0 < ws.chunk_size

-- Its chunk size is a whole number of steps.
pub record IsStepped (ws : UllShare) : Type 0 where
  pub ascending : IsAscending ws
  pub scaled : (c : ℕ) × (ws.chunk_size ≡ c * ws.incr)

clip_up : (ws : UllShare) (size left : ℕ) → ws.mode / 2 % 2 ≡ 0 → clip ws size left ≡ min size left
unfolding clip
clip_up ws size left u = rw (ne→== (ws.mode / 2 % 2) 1 (omega arith)) (ground arith)

-- The end of the range that starts at `start`.
abbrev chunk_end : UllShare → ℕ → ℕ
chunk_end ws start = start + min ws.chunk_size (ws.end - start)

locked_run :
    (ws : UllShare)
    → ws.mode / 2 % 2 ≡ 0
    → ws.end < word64
    → ws.next < ws.end
    → gomp_iter_ull_dynamic_next_locked ws
      ≡ (some (ws.next, chunk_end ws ws.next), record ws { next = chunk_end ws ws.next })
unfolding gomp_iter_ull_dynamic_next_locked
locked_run ws up fits h = rw (
  ne→== ws.next ws.end (omega arith),
  sub64_exact ws.end ws.next (omega arith) fits,
  clip_up ws ws.chunk_size (ws.end - ws.next) up,
  add64_exact ws.next (min ws.chunk_size (ws.end - ws.next)) (omega arith),
)

chunk_Stops :
    (ws : UllShare)
    → IsStepped ws
    → ws.next < ws.end
    → Stops ws.incr ws.next (chunk_end ws ws.next) ws.end
chunk_Stops ws a h = elim (dec_le ws.chunk_size (ws.end - ws.next)) [
  | yes l ↦ let (c, e) = a.scaled in inr (c, omega arith)
  | no m ↦ inl (omega arith)
]

gomp_iter_ull_dynamic_next_locked-Grabs : Grabs IsStepped gomp_iter_ull_dynamic_next_locked
unfolding gomp_iter_ull_dynamic_next_locked
gomp_iter_ull_dynamic_next_locked-Grabs ws a = (
  λ e. rw (eq→== ws.next ws.end e),
  λ h. (
    chunk_end ws ws.next,
    locked_run ws a.ascending.up a.ascending.fits h,
    omega (arith, a.ascending.some_chunk),
    omega arith,
    chunk_Stops ws a h,
    record {
      ascending = record {
        up = a.ascending.up;
        forward = omega arith;
        fits = a.ascending.fits;
        some_chunk = a.ascending.some_chunk;
      };
      scaled = a.scaled;
    },
  ),
)

-- In an upward dynamic loop with a positive chunk size of whole steps whose end is below 2 ^ 64, calls of
-- `gomp_iter_ull_dynamic_next_locked`, repeated until one is refused, end, and cut the values into
-- consecutive, nonempty ranges from the start of the loop to its end, which start at values of the
-- loop variable.
pub dynamic_locked-Tiles :
    (ws : UllShare)
    → IsStepped ws
    → Returns
        (take_all gomp_iter_ull_dynamic_next_locked (ws.end + 1) ws)
        (λ ranges. TilesBy ws.incr ws.next ranges ws.end)
dynamic_locked-Tiles ws a =
    take_all-Tiles IsStepped gomp_iter_ull_dynamic_next_locked
      gomp_iter_ull_dynamic_next_locked-Grabs (ws.end + 1) ws a a.ascending.forward (omega arith)

-- What other threads write to `next` meanwhile only grows, and stays within the loop.
abbrev pub Ascends : ℕ → List ℕ → ℕ → Type 0
Ascends start [] top = start ≤ top
Ascends start (found ∷ seen) top = (start ≤ found) × Ascends found seen top

Ascends-le : (start : ℕ) (seen : List ℕ) (top : ℕ) → Ascends start seen top → start ≤ top
Ascends-le start [] top h = h
Ascends-le start (found ∷ seen) top h = omega (arith, h.0, Ascends-le found seen top h.1)

module _ (ws : UllShare) (up : ws.mode / 2 % 2 ≡ 0) (fits : ws.end < word64) where
  abbrev at : ℕ → UllShare
  at v = record ws { next = v }

  stopped : (v : ℕ) → v ≡ ws.end → gomp_iter_ull_dynamic_next_locked (at v) ≡ (none, at v)
  unfolding gomp_iter_ull_dynamic_next_locked
  stopped v e = rw (eq→== v ws.end e)

  -- `size` is as good as the chunk size for whatever is left from `start` on.
  cas_chunk-locked :
      (size start : ℕ) (seen : List ℕ) (g : Grab)
      → Ascends start seen ws.end
      → ((left : ℕ) → left ≤ ws.end - start → min size left ≡ min ws.chunk_size left)
      → cas_chunk ws size start seen ≡ some g
      → (v : ℕ) × (start ≤ v) × (v ≤ ws.end) × (g ≡ gomp_iter_ull_dynamic_next_locked (at v))
  unfolding cas_chunk
  cas_chunk-locked size start [] g asc same e = absurd (cc e)
  cas_chunk-locked size start (found ∷ seen) g asc good e = elim (ℕ_discrete start ws.end) [
    | yes stop ↦
        let top : found ≡ ws.end = omega (arith, asc, Ascends-le found seen ws.end asc.1) in
        let e' : some (none, at found) ≡ some g = rw (eq→== start ws.end stop) at e in
        (found, asc.0, omega arith, sym (some_inj (none, at found) g e') ∙ sym (stopped found top))
    | no more ↦
        let size' : clip ws size (sub64 ws.end start) ≡ min size (ws.end - start) =
          rw (sub64_exact ws.end start (Ascends-le start (found ∷ seen) ws.end asc) fits)
            (clip_up ws size (ws.end - start) up) in
        elim (ℕ_discrete found start) [
          | yes same ↦
              let size'' : min size (ws.end - start) ≡ min ws.chunk_size (ws.end - start) =
                good (ws.end - start) (omega arith) in
              let sum : add64 start (min ws.chunk_size (ws.end - start))
                  ≡ start + min ws.chunk_size (ws.end - start) =
                add64_exact start (min ws.chunk_size (ws.end - start))
                  (omega (arith, Ascends-le start (found ∷ seen) ws.end asc)) in
              let e' : some (some (start, chunk_end ws start), at (chunk_end ws start)) ≡ some g =
                rw (ne→== start ws.end more, eq→== found start same, size', size'', sum) at e in
              (
                start,
                omega arith,
                Ascends-le start (found ∷ seen) ws.end asc,
                sym (some_inj (some (start, chunk_end ws start), at (chunk_end ws start)) g e')
                    ∙ sym (
                        locked_run (at start) up fits
                          (omega (arith, Ascends-le start (found ∷ seen) ws.end asc))),
              )
          | no lost ↦
              let e' : cas_chunk ws (min size (ws.end - start)) found seen ≡ some g =
                rw (ne→== start ws.end more, ne→== found start lost, size') at e in
              let (v, lo, hi, f) =
                cas_chunk-locked (min size (ws.end - start)) found seen g asc.1
                  (λ left h. omega (
                    arith,
                    good left (omega (arith, asc.0, Ascends-le found seen ws.end asc.1)),
                    asc.0,
                    Ascends-le found seen ws.end asc.1,
                  ))
                  e' in
              (v, omega (arith, asc.0), hi, f)
        ]
  ]

-- In an upward dynamic loop whose end is below 2 ^ 64 and that does not use fetch-and-add, whatever
-- other threads write to `next` meanwhile, as long as it never falls and does not pass the end: a
-- result of `gomp_iter_ull_dynamic_next`, the refusal included, is the result of
-- `gomp_iter_ull_dynamic_next_locked` at some value of `next` in between.
pub dynamic_cas-locked :
    (ws : UllShare) (seen : List ℕ) (g : Grab)
    → ws.mode / 2 % 2 ≡ 0
    → ws.mode % 2 ≡ 0
    → ws.end < word64
    → Ascends ws.next seen ws.end
    → gomp_iter_ull_dynamic_next ws seen ≡ some g
    → (v : ℕ) × (ws.next ≤ v)
      × (v ≤ ws.end)
      × (g ≡ gomp_iter_ull_dynamic_next_locked (record ws { next = v }))
unfolding gomp_iter_ull_dynamic_next
dynamic_cas-locked ws seen g up slow fits asc e =
    cas_chunk-locked ws up fits ws.chunk_size ws.next seen g asc (λ left h. refl)
      (rw (ne→== (ws.mode % 2) 1 (omega arith)) at e)

if_ends :
    (b : Bool) (x : Grab) (o : Option Grab)
    → (g : Grab) × (o ≡ some g)
    → (g : Grab) × ((if b then some x else o) ≡ some g)
if_ends true x o h = (x, refl)
if_ends false x o h = h

module _ (ws : UllShare) (size start found : ℕ) (seen : List ℕ) where
  abbrev clipped : ℕ
  clipped = clip ws size (sub64 ws.end start)

  abbrev won : Grab
  won = (some (start, add64 start clipped), record ws { next = add64 start clipped })

  -- An attempt ends the loop or goes on from what it found.
  cas_attempt :
      (g : Grab) × (cas_chunk ws clipped found seen ≡ some g)
      → (g : Grab) × (cas_chunk ws size start (found ∷ seen) ≡ some g)
  unfolding cas_chunk
  cas_attempt h =
      if_ends (start == ws.end) (none, record ws { next = found })
        (if found == start then some won else cas_chunk ws clipped found seen)
        (if_ends (found == start) won (cas_chunk ws clipped found seen) h)

  cas_same : found ≡ start → (g : Grab) × (cas_chunk ws size start (found ∷ seen) ≡ some g)
  unfolding cas_chunk
  cas_same e =
      if_ends (start == ws.end) (none, record ws { next = found })
        (if found == start then some won else cas_chunk ws clipped found seen)
        (won, rw (eq→== found start e))

-- The compare-and-swap loop of the dynamic schedule returns as soon as it finds the same value of
-- `next` twice in a row, whatever it found before and whatever comes after.
pub cas_chunk-ends :
    (ws : UllShare) (size start : ℕ) (seen : List ℕ) (v : ℕ) (rest : List ℕ)
    → (g : Grab) × (cas_chunk ws size start (seen ++ v ∷ v ∷ rest) ≡ some g)
cas_chunk-ends ws size start [] v rest =
    cas_attempt ws size start v (v ∷ rest)
      (cas_same ws (clipped ws size start v (v ∷ rest)) v v rest refl)
cas_chunk-ends ws size start (found ∷ seen) v rest =
    cas_attempt ws size start found (seen ++ v ∷ v ∷ rest)
      (cas_chunk-ends ws (clipped ws size start found seen) found seen v rest)
