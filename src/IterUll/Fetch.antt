-- ===== src/IterUll/Fetch.antt =====
-- The dynamic schedule of libgomp/iter_ull.c by fetch-and-add.
use libgomp.Prelude.{
  ℕ, zero, suc, ◌+◌, ◌*◌, ◌/◌, ◌%◌, ◌≤◌, ◌<◌, ◌≡◌, ap, List, [], ◌∷◌, Option, none, some, arith,
  eq→==, le→leb, not-le→leb, dec_lt,
}
use mathlib.Core.Path.{subst}
use Prim.Native.Nat.{min}
use libgomp.Word.{word64, add64_exact}
use libgomp.IterUll.{UllShare, fetch_chunk}
use libgomp.IterUll.Tiles.{Tiles}

abbrev pub keep : Option (ℕ × ℕ) → List (ℕ × ℕ) → List (ℕ × ℕ)
keep none rest = rest
keep (some p) rest = p ∷ rest

-- `count` calls of the fetch-and-add variant, by whichever threads: the ranges that were returned.
unfoldable pub fetch_all : ℕ → UllShare → List (ℕ × ℕ)
fetch_all zero ws = []
fetch_all (suc count) ws = keep (fetch_chunk ws).0 (fetch_all count (fetch_chunk ws).1)

-- The share after one fetch.
abbrev fetched : UllShare → UllShare
fetched ws = record ws { next = ws.next + ws.chunk_size }

fetch_inside :
    (ws : UllShare)
    → ws.mode / 2 % 2 ≡ 0
    → ws.next + ws.chunk_size < word64
    → ws.next < ws.end
    → fetch_chunk ws ≡ (some (ws.next, min (ws.next + ws.chunk_size) ws.end), fetched ws)
unfolding fetch_chunk
fetch_inside ws up fits lt =
    rw
      (
        add64_exact ws.next ws.chunk_size fits,
        eq→== (ws.mode / 2 % 2) 0 up,
        not-le→leb ws.end ws.next (omega arith),
      )
      (ap (λ e. (some (ws.next, e), fetched ws)) (ground arith))

fetch_outside :
    (ws : UllShare)
    → ws.mode / 2 % 2 ≡ 0
    → ws.next + ws.chunk_size < word64
    → ws.end ≤ ws.next
    → fetch_chunk ws ≡ (none, fetched ws)
unfolding fetch_chunk
fetch_outside ws up fits ge =
    rw (
      add64_exact ws.next ws.chunk_size fits,
      eq→== (ws.mode / 2 % 2) 0 up,
      le→leb ws.end ws.next ge,
    )

-- In an upward dynamic loop with a positive chunk size, as long as `count` chunks behind the start
-- stay below 2 ^ 64, the ranges that `count` calls of the fetch-and-add variant return are
-- consecutive and nonempty, and reach from the start of the loop to `count` chunks further or to
-- the end, whichever is less; calls past the end return nothing.
pub fetch_all-Tiles :
    (count : ℕ) (ws : UllShare)
    → ws.mode / 2 % 2 ≡ 0
    → 0 < ws.chunk_size
    → ws.next + count * ws.chunk_size < word64
    → Tiles (min ws.next ws.end) (fetch_all count ws) (min (ws.next + count * ws.chunk_size) ws.end)
unfolding fetch_all
fetch_all-Tiles zero ws up pos fits = ap (λ v. min v ws.end) (omega arith)
fetch_all-Tiles (suc count) ws up pos fits =
    let again : Tiles (min (ws.next + ws.chunk_size) ws.end) (fetch_all count (fetched ws))
        (min (ws.next + ws.chunk_size + count * ws.chunk_size) ws.end) =
      fetch_all-Tiles count (fetched ws) up pos (omega arith) in
    let sum : ws.next + ws.chunk_size + count * ws.chunk_size
        ≡ ws.next + suc count * ws.chunk_size =
      omega arith in
    let rest : Tiles (min (ws.next + ws.chunk_size) ws.end) (fetch_all count (fetched ws))
        (min (ws.next + suc count * ws.chunk_size) ws.end) =
      subst
        (λ v.
          Tiles (min (ws.next + ws.chunk_size) ws.end) (fetch_all count (fetched ws))
            (min v ws.end))
        sum again in
    elim (dec_lt ws.next ws.end) [
      | yes lt ↦ rw (fetch_inside ws up (omega arith) lt) (omega arith, omega arith, rest)
      | no ge ↦
          let same : min (ws.next + ws.chunk_size) ws.end ≡ min ws.next ws.end = omega arith in
          rw (fetch_outside ws up (omega arith) (omega arith)) (
            subst
              (λ v.
                Tiles v (fetch_all count (fetched ws))
                  (min (ws.next + suc count * ws.chunk_size) ws.end))
              same rest)
    ]
