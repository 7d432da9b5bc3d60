-- ===== src/LoopUll/Fast.antt =====
-- What `gomp_loop_ull_init` (libgomp/loop_ull.c) prepares for the dynamic and guided schedules.
use libgomp.Prelude.{
  ℕ, ◌+◌, ◌-◌, ◌*◌, ◌/◌, ◌%◌, ◌≤◌, ◌<◌, ◌^◌, ◌≡◌, refl, sym, ◌⊎◌, inl, inr, Option, Bool, true,
  false, ◌&&◌, Bool-cases, arith, ltb, ltb→lt, if◌then◌else◌, Returns,
}
use mathlib.Core.Path.{subst}
use Prim.Native.Nat.{min}
use libgomp.Word.{word64, add64, sub64, mul64, add64_exact, sub64_exact, mul64_exact}
use libgomp.IterUll.{UllShare, gomp_iter_ull_dynamic_next_locked, gomp_iter_ull_guided_next_locked}
use libgomp.IterUll.Static.{mul_mono}
use libgomp.IterUll.Tiles.{Tiles, TilesBy, take_all}
use libgomp.IterUll.Dynamic.{IsAscending, IsStepped, dynamic_locked-Tiles}
use libgomp.IterUll.Fetch.{fetch_all, fetch_all-Tiles}
use libgomp.IterUll.Guided.{IsGuided, guided_locked-Tiles}
use libgomp.LoopUll.Init.{
  dynamic, guided, LoopArgs, team_size, flag, loop_end, is_small, fast_mode, is_dynamic,
  gomp_loop_ull_init,
}

-- An upward loop whose numbers fit, with a positive step and a positive chunk size that stays below
-- 2 ^ 64 when it is counted in values.
pub record IsForward (a : LoopArgs) : Type 0 where
  pub upward : a.up ≡ true
  pub start_fits : a.start < word64
  pub end_fits : a.end < word64
  pub step : 0 < a.incr
  pub some_chunk : 0 < a.chunk_size
  pub chunk_fits : a.chunk_size * a.incr < word64

flag_le : (b : Bool) → flag b ≤ 1
flag_le true = omega arith
flag_le false = omega arith

guarded_le : (b : Bool) (x : ℕ) → x ≤ 1 → (if b then x else 0) ≤ 1
guarded_le true x h = h
guarded_le false x h = omega arith

both : (b c : Bool) → (b && c) ≡ true → (b ≡ true) × (c ≡ true)
both true true e = (refl, refl)
both true false e = absurd (cc e)
both false c e = absurd (cc e)

small_lem :
    (nthreads size : ℕ) → is_small nthreads size ≡ true → (nthreads < 2 ^ 31) × (size < 2 ^ 31)
small_lem nthreads size e =
    let (few, short) = both (ltb nthreads (2 ^ 31)) (ltb size (2 ^ 31)) e in
    (ltb→lt nthreads (2 ^ 31) few, ltb→lt size (2 ^ 31) short)

zero_one : (n : ℕ) → n ≡ 0 → n ≡ 1 → ⊥
zero_one n z e = omega arith

-- The overflow protection: with fetch-and-add a chunk for each thread and one more still fit behind
-- the end.
fast_mode_lem :
    (nthreads end size : ℕ)
    → fast_mode true nthreads end size ≡ 1
    → end + (nthreads + 1) * size < word64
unfolding fast_mode
fast_mode_lem nthreads end size e = elim (Bool-cases (is_small nthreads size)) [
  | inl small ↦ elim (Bool-cases (ltb end (sub64 (word64 - 1) (mul64 (add64 nthreads 1) size)))) [
    | inl below ↦
        let (few, short) = small_lem nthreads size small in
        let product : (nthreads + 1) * size ≤ 2 ^ 31 * size =
          mul_mono (nthreads + 1) (2 ^ 31) size (omega arith) in
        let margin : sub64 (word64 - 1) (mul64 (add64 nthreads 1) size)
            ≡ word64 - 1 - (nthreads + 1) * size =
          rw (add64_exact nthreads 1 (omega arith), mul64_exact (nthreads + 1) size (omega arith))
            (sub64_exact (word64 - 1) ((nthreads + 1) * size) (omega arith) (omega arith)) in
        omega (arith, margin, ltb→lt end (sub64 (word64 - 1) (mul64 (add64 nthreads 1) size)) below)
    | inr not_below ↦ absurd (zero_one 0 refl (rw (small, not_below) at e))
  ]
  | inr large ↦ absurd (zero_one 0 refl (rw large at e))
]

fast_mode_le : (nthreads end size : ℕ) → fast_mode true nthreads end size ≤ 1
unfolding fast_mode
fast_mode_le nthreads end size = guarded_le (is_small nthreads size) _ (flag_le _)

mode_up :
    (up : Bool) (nthreads end size : ℕ)
    → up ≡ true
    → (if up then fast_mode up nthreads end size else fast_mode up nthreads end size + 2)
      ≡ fast_mode true nthreads end size
mode_up up nthreads end size e = rw e

module _ (a : LoopArgs) (f : IsForward a) where
  loop_end_lem : loop_end a ≡ (if ltb a.end a.start then a.start else a.end)
  unfolding loop_end
  loop_end_lem = rw f.upward (elim (Bool-cases (ltb a.end a.start)) [ inl e ↦ rw e | inr e ↦ rw e ])

  forward_end : (a.start ≤ loop_end a) × (loop_end a < word64)
  forward_end = rw loop_end_lem (ground (arith, f.start_fits, f.end_fits))

  chunk_pos : 0 < a.chunk_size * a.incr
  chunk_pos = omega (arith, mul_mono 1 a.chunk_size a.incr f.some_chunk, f.step)

  init-IsAscending : (team : Option ℕ) → IsAscending (gomp_loop_ull_init team a dynamic)
  unfolding gomp_loop_ull_init is_dynamic
  init-IsAscending team = record {
    up = omega (
      arith,
      mode_up a.up (team_size team) (loop_end a) (mul64 a.chunk_size a.incr) f.upward,
      fast_mode_le (team_size team) (loop_end a) (mul64 a.chunk_size a.incr),
    );
    forward = forward_end.0;
    fits = forward_end.1;
    some_chunk = rw (mul64_exact a.chunk_size a.incr f.chunk_fits) chunk_pos;
  }

  init-IsStepped : (team : Option ℕ) → IsStepped (gomp_loop_ull_init team a dynamic)
  unfolding gomp_loop_ull_init is_dynamic
  init-IsStepped team = record {
    ascending = init-IsAscending team;
    scaled = (a.chunk_size, mul64_exact a.chunk_size a.incr f.chunk_fits);
  }

  init-IsGuided : (team : Option ℕ) → IsGuided (gomp_loop_ull_init team a guided)
  unfolding gomp_loop_ull_init is_dynamic
  init-IsGuided team = record {
    up = rw f.upward;
    forward = forward_end.0;
    fits = forward_end.1;
    some_chunk = f.some_chunk;
    step = f.step;
  }

  init_dynamic-Tiles :
      (team : Option ℕ)
      → Returns
          (take_all gomp_iter_ull_dynamic_next_locked
            (loop_end a + 1)
            (gomp_loop_ull_init team a dynamic))
          (λ ranges. TilesBy a.incr a.start ranges (loop_end a))
  unfolding gomp_loop_ull_init
  init_dynamic-Tiles team =
      dynamic_locked-Tiles (gomp_loop_ull_init team a dynamic) (init-IsStepped team)

  init_guided-Tiles :
      (team : Option ℕ) (nthreads : ℕ)
      → Returns
          (take_all
            (gomp_iter_ull_guided_next_locked nthreads)
            (loop_end a + 1)
            (gomp_loop_ull_init team a guided))
          (λ ranges. TilesBy a.incr a.start ranges (loop_end a))
  unfolding gomp_loop_ull_init
  init_guided-Tiles team nthreads =
      guided_locked-Tiles nthreads (gomp_loop_ull_init team a guided) (init-IsGuided team)

  -- After `gomp_loop_ull_init` of an upward loop, with a start and an end below 2 ^ 64, a
  -- positive step and a positive chunk size, whose product is below 2 ^ 64: of a dynamic loop,
  -- calls of `gomp_iter_ull_dynamic_next_locked`, and of a guided loop, calls of
  -- `gomp_iter_ull_guided_next_locked` for any number of threads, repeated until one is refused,
  -- end, and cut the values into consecutive, nonempty ranges from the start to the end of the
  -- loop, or to the start if that is behind the end; each of them starts a whole number of steps
  -- from the start, so at a value of the loop variable.
  pub init-Tiles :
      (team : Option ℕ) (nthreads : ℕ)
      → Returns
          (take_all gomp_iter_ull_dynamic_next_locked
            (loop_end a + 1)
            (gomp_loop_ull_init team a dynamic))
          (λ ranges. TilesBy a.incr a.start ranges (loop_end a))
        × Returns
            (take_all
              (gomp_iter_ull_guided_next_locked nthreads)
              (loop_end a + 1)
              (gomp_loop_ull_init team a guided))
            (λ ranges. TilesBy a.incr a.start ranges (loop_end a))
  init-Tiles team nthreads = (init_dynamic-Tiles team, init_guided-Tiles team nthreads)

distribute : (x y z : ℕ) → (x + y) * z ≡ x * z + y * z
distribute x y z = grind arith

rounds_split :
    (rounds extra size : ℕ) → (rounds + extra) * size ≤ (rounds - 1) * size + (extra + 1) * size
rounds_split rounds extra size = omega (
  arith,
  mul_mono (rounds + extra) (rounds - 1 + (extra + 1)) size (omega arith),
  distribute (rounds - 1) (extra + 1) size,
)

-- With fetch-and-add, `rounds` calls that find work, and one more of each thread that finds none.
module _ (a : LoopArgs) (f : IsForward a) (team : Option ℕ)
    (fast : (gomp_loop_ull_init team a dynamic).mode % 2 ≡ 1) (rounds extra : ℕ)
    (each_once : extra ≤ team_size team)
    (found : (rounds ≡ 0) ⊎ (a.start + (rounds - 1) * (a.chunk_size * a.incr) < loop_end a)) where
  abbrev ws : UllShare
  ws = gomp_loop_ull_init team a dynamic

  abbrev size : ℕ
  size = a.chunk_size * a.incr

  exact : mul64 a.chunk_size a.incr ≡ size
  exact = mul64_exact a.chunk_size a.incr f.chunk_fits

  is_fast : fast_mode true (team_size team) (loop_end a) size ≡ 1
  unfolding gomp_loop_ull_init is_dynamic
  is_fast =
      let odd : fast_mode true (team_size team) (loop_end a) (mul64 a.chunk_size a.incr) ≡ 1 =
        omega (
          arith,
          fast,
          mode_up a.up (team_size team) (loop_end a) (mul64 a.chunk_size a.incr) f.upward,
          fast_mode_le (team_size team) (loop_end a) (mul64 a.chunk_size a.incr),
        ) in
      subst (λ z. fast_mode true (team_size team) (loop_end a) z ≡ 1) exact odd

  room : a.start + (rounds + extra) * size < word64
  room =
      let margin : loop_end a + (team_size team + 1) * size < word64 =
        fast_mode_lem (team_size team) (loop_end a) size is_fast in
      elim found [
        | inl none_found ↦ omega (
          arith,
          (forward_end a f).0,
          margin,
          mul_mono (rounds + extra) (team_size team + 1) size (omega arith),
        )
        | inr last ↦ omega (
          arith,
          margin,
          rounds_split rounds extra size,
          mul_mono (extra + 1) (team_size team + 1) size (omega arith),
          (forward_end a f).0,
        )
      ]

  -- Let `gomp_loop_ull_init` set up an upward dynamic loop, with a start and an end below 2 ^ 64,
  -- a positive step and a positive chunk size, whose product is below 2 ^ 64, and let it choose
  -- fetch-and-add. Let `rounds` calls find work, which is to say that there are none or that the
  -- last of them finds `next` below the end, and let at most as many calls as there are threads
  -- in the team come after them. Then `next` does not wrap: the ranges that all these calls
  -- return are consecutive and nonempty, and reach from the start of the loop to as many chunks
  -- further as there are calls, or to the end, whichever is less.
  pub init_fetch-Tiles :
      Tiles a.start
        (fetch_all (rounds + extra) ws)
        (min (a.start + (rounds + extra) * size) (loop_end a))
  unfolding gomp_loop_ull_init is_dynamic
  init_fetch-Tiles =
      let below : min a.start (loop_end a) ≡ a.start = omega (arith, (forward_end a f).0) in
      let up : ws.mode / 2 % 2 ≡ 0 = (init-IsAscending a f team).up in
      let pos : 0 < ws.chunk_size = (init-IsAscending a f team).some_chunk in
      subst
        (λ z.
          Tiles z (fetch_all (rounds + extra) ws)
            (min (a.start + (rounds + extra) * size) (loop_end a)))
        below
        (subst
          (λ z.
            Tiles (min a.start (loop_end a)) (fetch_all (rounds + extra) ws)
              (min (a.start + (rounds + extra) * z) (loop_end a)))
          exact
          (fetch_all-Tiles (rounds + extra) ws up pos
            (subst (λ z. a.start + (rounds + extra) * z < word64) (sym exact) room)))
