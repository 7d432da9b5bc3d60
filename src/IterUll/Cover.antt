-- ===== src/IterUll/Cover.antt =====
-- The static schedule of libgomp/iter_ull.c: which thread gets which values.
use libgomp.Prelude.{
  ℕ, suc, ◌+◌, ◌-◌, ◌*◌, ◌/◌, ◌%◌, ◌≤◌, ◌<◌, ◌≡◌, ◌∙◌, ap, ◌≢◌, some, arith, ltb, if◌then◌else◌,
  ne→==, not-le→leb, dec_lt,
}
use mathlib.Core.Path.{subst}
use native.Mathlib.Nat.{div-add-mod', mod-lt}
use libgomp.Word.{word64, add64_exact, mul64_exact}
use libgomp.IterUll.{
  UllShare, last_trip, StaticNext, iteration_count, chunk, static_chunk, gomp_iter_ull_static_next,
}
use libgomp.IterUll.Static.{
  block_start, block_start_end, scaled_le, mul_mono, find_block, IsUpward, value, count_lem,
  count-lt, to_value_exact, nonempty_run, empty_run,
}

-- The call returns a range that holds the value `v`.
abbrev pub Serves : ℕ → ℕ → ℕ → UllShare → ℕ → Type 0
Serves nthreads i trip ws v =
    (a : ℕ) × (b : ℕ) × ((gomp_iter_ull_static_next nthreads i trip ws).range ≡ some (a, b))
    × (a ≤ v)
    × (v < b)

pub block_start_mono :
    (n nthreads i d : ℕ) → block_start n nthreads i ≤ block_start n nthreads (i + d)
block_start_mono n nthreads i d = omega (arith, scaled_le (n / nthreads) i (i + d) (omega arith))

value_mono : (ws : UllShare) (x y : ℕ) → x ≤ y → value ws x ≤ value ws y
value_mono ws x y h = omega (arith, mul_mono x y ws.incr h)

value_strict : (ws : UllShare) (x y : ℕ) → 0 < ws.incr → x < y → value ws x < value ws y
value_strict ws x y s h = omega (arith, mul_mono (suc x) y ws.incr h)

module _ (ws : UllShare) (u : IsUpward ws) (nthreads : ℕ) (several : 1 < nthreads)
    (whole : ws.chunk_size ≡ 0) where
  abbrev n : ℕ
  n = iteration_count ws

  -- In an upward loop whose end plus step stays below 2 ^ 64, shared without a chunk size by more
  -- than one thread, each value of the loop variable below the end lies in the range that some
  -- thread of the team gets on its trip 0.
  pub static_covers :
      (x : ℕ) → value ws x < ws.end → (i : ℕ) × (i < nthreads) × Serves nthreads i 0 ws (value ws x)
  static_covers x h =
      let (i, l, a, b) = find_block n nthreads (omega arith) (count-lt ws u) nthreads x (
        omega (
          arith,
          block_start_end n nthreads (omega arith) (count-lt ws u),
          (count_lem ws u x).1 h,
        )) in
      (
        i,
        l,
        (
          value ws (block_start n nthreads i),
          value ws (block_start n nthreads (suc i)),
          nonempty_run ws u nthreads i several l whole (omega arith),
          value_mono ws (block_start n nthreads i) x a,
          value_strict ws x (block_start n nthreads (suc i)) u.step b,
        ),
      )

  -- The range of a thread, if it has one, is its block.
  served_block :
      (i v : ℕ)
      → i < nthreads
      → Serves nthreads i 0 ws v
      → (value ws (block_start n nthreads i) ≤ v) × (v < value ws (block_start n nthreads (suc i)))
  served_block i v l (a, b, e, p, q) =
      elim (dec_lt (block_start (iteration_count ws) nthreads i)
        (block_start (iteration_count ws) nthreads (suc i))) [
          | yes lt ↦ ground (arith, nonempty_run ws u nthreads i several l whole lt)
          | no ge ↦ absurd (cc (empty_run ws u nthreads i several l whole ge))
        ]

  -- In an upward loop whose end plus step stays below 2 ^ 64, shared without a chunk size by more
  -- than one thread, no value lies in the ranges that two different threads of the team get on
  -- their trip 0.
  pub static_disjoint :
      (i j v : ℕ) → i < j → j < nthreads → Serves nthreads i 0 ws v → ¬ Serves nthreads j 0 ws v
  static_disjoint i j v l h s t = omega (
    arith,
    served_block i v (omega arith) s,
    served_block j v h t,
    value_mono ws (block_start n nthreads (suc i)) (block_start n nthreads j) apart,
  )
    where
      apart : block_start n nthreads (suc i) ≤ block_start n nthreads j
      apart =
          let e : suc i + (j - suc i) ≡ j = omega arith in
          subst (λ k. block_start n nthreads (suc i) ≤ block_start n nthreads k) e
            (block_start_mono n nthreads (suc i) (j - suc i))

module _ (ws : UllShare) (u : IsUpward ws) (nthreads : ℕ) (several : 1 < nthreads)
    (chunked : 0 < ws.chunk_size) (room : iteration_count ws + ws.chunk_size < word64) (x : ℕ)
    (h : value ws x < ws.end) where
  abbrev all : ℕ
  all = iteration_count ws

  abbrev c : ℕ
  c = ws.chunk_size

  abbrev turn : ℕ
  turn = x / ws.chunk_size

  turn_parts : turn / nthreads * nthreads + turn % nthreads ≡ turn
  turn_parts = div-add-mod' turn nthreads

  x_parts : turn * c + x % c ≡ x
  x_parts = div-add-mod' x ws.chunk_size

  turn_fits : turn * c + c < word64
  turn_fits = omega (arith, x_parts, (count_lem ws u x).1 h, room)

  turn-le : turn ≤ turn * c
  turn-le = omega (arith, scaled_le turn 1 ws.chunk_size chunked)

  chunk_exact : chunk (turn / nthreads) nthreads (turn % nthreads) c ≡ (turn * c, turn * c + c)
  unfolding chunk
  chunk_exact = rw (
    mul64_exact (turn / nthreads) nthreads (omega (arith, turn_parts, turn-le, turn_fits)),
    add64_exact (turn / nthreads * nthreads) (turn % nthreads)
        (omega (arith, turn_parts, turn-le, turn_fits)),
    turn_parts,
    mul64_exact turn c (omega (arith, turn_fits)),
    add64_exact (turn * c) c turn_fits,
  )

  trip-ne : turn / nthreads ≢ last_trip
  trip-ne e = omega (
    arith,
    turn_fits,
    turn-le,
    turn_parts,
    mul_mono (turn / nthreads) (turn / nthreads) nthreads (omega arith),
    scaled_le (turn / nthreads) 1 nthreads (omega arith),
  )

  chunk_run :
      gomp_iter_ull_static_next nthreads (turn % nthreads) (turn / nthreads) ws
      ≡ static_chunk ws (turn / nthreads) all (turn * c, turn * c + c)
  unfolding gomp_iter_ull_static_next
  chunk_run = rw (
    ne→== (turn / nthreads) last_trip trip-ne,
    ne→== nthreads 1 (omega arith),
    ne→== ws.chunk_size 0 (omega arith),
    chunk_exact,
  )

  -- In an upward loop whose end plus step stays below 2 ^ 64, shared by more than one thread in
  -- chunks of a positive size that with the number of iterations stays below 2 ^ 64, the value on
  -- the iteration `x` lies in the range that the thread `x / c % nthreads` gets on its trip `x /
  -- c / nthreads`, where `c` is the chunk size.
  pub chunk_covers : Serves nthreads (turn % nthreads) (turn / nthreads) ws (value ws x)
  unfolding static_chunk
  chunk_covers = (
    value ws (turn * c),
    value ws chunk_stop,
    ap (λ (r : StaticNext). r.range) chunk_run ∙ stored,
    value_mono ws (turn * c) x (omega (arith, x_parts)),
    value_strict ws x chunk_stop u.step x-lt,
  )
    where
      chunk_stop : ℕ
      chunk_stop = if ltb all (turn * c + c) then all else turn * c + c

      x-lt : x < chunk_stop
      x-lt = ground (arith, (count_lem ws u x).1 h, x_parts, mod-lt x chunked)

      stop_le : chunk_stop ≤ all
      stop_le = ground arith

      stored :
          (static_chunk ws (turn / nthreads) all (turn * c, turn * c + c)).range
          ≡ some (value ws (turn * c), value ws chunk_stop)
      stored = rw (
        not-le→leb all (turn * c) (omega (arith, x_parts, (count_lem ws u x).1 h)),
        to_value_exact ws u (turn * c) (omega (arith, x_parts, (count_lem ws u x).1 h)),
        to_value_exact ws u chunk_stop stop_le,
      )
