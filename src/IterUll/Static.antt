-- ===== src/IterUll/Static.antt =====
-- The static schedule of libgomp/iter_ull.c: the blocks of the threads tile the iterations.
use libgomp.Prelude.{
  ℕ, zero, suc, ◌+◌, ◌-◌, ◌*◌, ◌/◌, ◌%◌, ◌≤◌, ◌<◌, ◌≡◌, ◌∙◌, ap, ◌↔◌, none, some, arith, ltb,
  if◌then◌else◌, lt→ltb, not-lt→ltb, eq→==, ne→==, le→leb, not-le→leb, dec_lt,
}
use mathlib.Core.Path.{ap₂}
use Prim.Native.Nat.{min}
use native.Mathlib.Nat.{div-add-mod', mod-lt}
use libgomp.Word.{word64, add64_exact, sub64_exact, mul64_exact}
use libgomp.IterUll.{
  UllShare, StaticNext, iteration_count, block, to_value, static_block, gomp_iter_ull_static_next,
}

-- Where the block of thread `i` begins: `q` iterations for each thread before it, and one more for
-- each of the first `t`.
abbrev pub block_start : ℕ → ℕ → ℕ → ℕ
block_start n nthreads i = n / nthreads * i + min i (n % nthreads)

pub scaled_le : (q i m : ℕ) → i ≤ m → q * i ≤ q * m
scaled_le q i m h = grind arith

pub mul_mono : (a b g : ℕ) → a ≤ b → a * g ≤ b * g
mul_mono a b g h = grind arith

module _ (n nthreads : ℕ) (some_thread : 0 < nthreads) (small : n < word64) where
  parts : n / nthreads * nthreads + n % nthreads ≡ n
  parts = div-add-mod' n nthreads

  pub block_start_le : (i : ℕ) → i ≤ nthreads → block_start n nthreads i ≤ n
  block_start_le i h = omega (arith, parts, scaled_le (n / nthreads) i nthreads h)

  pub block_start_end : block_start n nthreads nthreads ≡ n
  block_start_end = omega (arith, parts, mod-lt n some_thread)

  pub block_start-suc :
      (i : ℕ)
      → block_start n nthreads (suc i)
        ≡ block_start n nthreads i
          + (if ltb i (n % nthreads) then n / nthreads + 1 else n / nthreads)
  block_start-suc i = ground arith

  pub block_exact :
      (i : ℕ)
      → i < nthreads
      → block n nthreads i ≡ (block_start n nthreads i, block_start n nthreads (suc i))
  unfolding block
  block_exact i h = elim (dec_lt i (n % nthreads)) [
    | yes lt ↦
        let fits : (n / nthreads + 1) * i + (n / nthreads + 1) ≤ n =
          omega (arith, block_start_le (suc i) h) in
        rw
          (
            lt→ltb i (n % nthreads) lt,
            add64_exact (n / nthreads) 1 (omega (arith, fits)),
            mul64_exact (n / nthreads + 1) i (omega (arith, fits)),
            add64_exact ((n / nthreads + 1) * i) 0 (omega (arith, fits)),
            add64_exact ((n / nthreads + 1) * i + 0) (n / nthreads + 1) (omega (arith, fits)),
          )
          (ap₂ (λ a b. (a, b)) (omega arith) (omega arith))
    | no ge ↦
        let fits : n / nthreads * i + n % nthreads + n / nthreads ≤ n =
          omega (arith, block_start_le (suc i) h) in
        rw
          (
            not-lt→ltb i (n % nthreads) ge,
            mul64_exact (n / nthreads) i (omega (arith, fits)),
            add64_exact (n / nthreads * i) (n % nthreads) (omega (arith, fits)),
            add64_exact (n / nthreads * i + n % nthreads) (n / nthreads) (omega (arith, fits)),
          )
          (ap₂ (λ a b. (a, b)) (omega arith) (omega arith))
  ]

  -- Every iteration lies in the block of a thread.
  pub find_block :
      (m x : ℕ)
      → x < block_start n nthreads m
      → (i : ℕ) × (i < m) × (block_start n nthreads i ≤ x) × (x < block_start n nthreads (suc i))
  find_block zero x h = absurd (omega arith)
  find_block (suc m) x h = elim (dec_lt x (block_start n nthreads m)) [
    | yes p ↦ let (i, l, a, b) = find_block m x p in (i, omega arith, a, b)
    | no p ↦ (m, omega arith, omega arith, h)
  ]

pub ceil_lem : (d g x : ℕ) → 0 < g → (x < (d + g - 1) / g) ↔ (x * g < d)
ceil_lem d g x h = (below, above)
  where
    whole : (d + g - 1) / g * g + (d + g - 1) % g ≡ d + g - 1
    whole = div-add-mod' (d + g - 1) g

    below : x < (d + g - 1) / g → x * g < d
    below l = omega (arith, whole, mul_mono (suc x) ((d + g - 1) / g) g l)

    above : x * g < d → x < (d + g - 1) / g
    above l = elim (dec_lt x ((d + g - 1) / g)) [
      | yes p ↦ p
      | no p ↦
          absurd (
            omega
              (arith, whole, mul_mono ((d + g - 1) / g) x g (omega arith), mod-lt (d + g - 1) h))
    ]

-- A loop that counts up and whose last step does not wrap.
pub record IsUpward (ws : UllShare) : Type 0 where
  pub up : ws.mode ≡ 0
  pub forward : ws.next ≤ ws.end
  pub step : 0 < ws.incr
  pub top : ws.end + ws.incr < word64

-- The value of the loop variable on the iteration `x`.
abbrev pub value : UllShare → ℕ → ℕ
value ws x = x * ws.incr + ws.next

module _ (ws : UllShare) (u : IsUpward ws) where
  -- Rounded up, the quotient counts the values below `end`.
  pub count_lem : (x : ℕ) → (x < iteration_count ws) ↔ (value ws x < ws.end)
  unfolding iteration_count
  count_lem x =
      rw
        (
          eq→== ws.mode 0 u.up,
          sub64_exact ws.end ws.next u.forward (omega (arith, u.top)),
          add64_exact (ws.end - ws.next) ws.incr (omega (arith, u.top)),
          sub64_exact (ws.end - ws.next + ws.incr) 1 (omega (arith, u.step)) (omega (arith, u.top)),
        )
        (
          λ l. omega (arith, (ceil_lem (ws.end - ws.next) ws.incr x u.step).0 l),
          λ l. (ceil_lem (ws.end - ws.next) ws.incr x u.step).1 (omega (arith, u.forward)),
        )

  value_bound : (x : ℕ) → x ≤ iteration_count ws → value ws x < word64
  value_bound zero h = omega (arith, u.forward, u.top)
  value_bound (suc x) h = omega (arith, (count_lem x).0 h, u.top)

  pub to_value_exact : (x : ℕ) → x ≤ iteration_count ws → to_value ws x ≡ value ws x
  unfolding to_value
  to_value_exact x h =
      rw (mul64_exact x ws.incr (omega (arith, value_bound x h)))
        (add64_exact (x * ws.incr) ws.next (value_bound x h))

  pub count-lt : iteration_count ws < word64
  count-lt = elim (dec_lt (iteration_count ws) word64) [
    | yes p ↦ p
    | no p ↦ absurd (
        omega (
          arith,
          (count_lem (word64 - 1)).0 (omega arith),
          u.top,
          scaled_le (word64 - 1) 1 ws.incr u.step,
        ))
  ]

  -- What the first call of thread `i` returns, in numbers.
  module _ (nthreads i : ℕ) (several : 1 < nthreads) (h : i < nthreads)
      (whole : ws.chunk_size ≡ 0) where
    abbrev pub n : ℕ
    n = iteration_count ws

    block_run :
        gomp_iter_ull_static_next nthreads i 0 ws
        ≡ static_block ws 0 n (block_start n nthreads i, block_start n nthreads (suc i))
    unfolding gomp_iter_ull_static_next
    block_run = rw (
      ne→== nthreads 1 (omega arith),
      eq→== ws.chunk_size 0 whole,
      block_exact (iteration_count ws) nthreads (omega arith) count-lt i h,
    )

    pub nonempty_run :
        block_start n nthreads i < block_start n nthreads (suc i)
        → (gomp_iter_ull_static_next nthreads i 0 ws).range
          ≡ some (value ws (block_start n nthreads i), value ws (block_start n nthreads (suc i)))
    unfolding static_block
    nonempty_run lt =
        ap (λ (r : StaticNext). r.range) block_run
        ∙ rw (
          not-le→leb (block_start (iteration_count ws) nthreads (suc i))
              (block_start (iteration_count ws) nthreads i) (omega arith),
          to_value_exact (block_start (iteration_count ws) nthreads i)
              (block_start_le (iteration_count ws) nthreads (omega arith) count-lt i (omega arith)),
          to_value_exact (block_start (iteration_count ws) nthreads (suc i))
              (block_start_le (iteration_count ws) nthreads (omega arith) count-lt (suc i) h),
        )

    pub empty_run :
        ¬ (block_start n nthreads i < block_start n nthreads (suc i))
        → (gomp_iter_ull_static_next nthreads i 0 ws).range ≡ none
    unfolding static_block
    empty_run ge =
        ap (λ (r : StaticNext). r.range) block_run
        ∙ rw (
            le→leb (block_start (iteration_count ws) nthreads (suc i))
              (block_start (iteration_count ws) nthreads i) (omega arith))
