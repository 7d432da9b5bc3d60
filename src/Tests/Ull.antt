-- ===== src/Tests/Ull.antt =====
-- Loops over `unsigned long long` (libgomp/iter_ull.c).
use libgomp.Prelude.{ℕ, ◌+◌, ◌/◌, ◌%◌, ◌≤◌, ◌<◌, ◌≡◌, refl, [], ◌∷◌, some, arith}
use libgomp.Word.{word64, add64, sub64, mul64}
use libgomp.IterUll.{
  UllShare, more, last_trip, Grab, iteration_count, block, chunk, to_value, static_block,
  static_chunk, gomp_iter_ull_static_next, clip, gomp_iter_ull_dynamic_next_locked, fetch_chunk,
  cas_chunk, gomp_iter_ull_dynamic_next, iterations_left, guided_end,
  gomp_iter_ull_guided_next_locked, cas_guided,
}
use libgomp.IterUll.Static.{IsUpward}
use libgomp.IterUll.Cover.{Serves, static_covers, static_disjoint, chunk_covers}
use libgomp.IterUll.Dynamic.{IsAscending, dynamic_cas-locked, cas_chunk-ends}
use libgomp.IterUll.Guided.{IsGuided}

program : Unit {0}
unfolding add64 sub64 mul64 iteration_count block chunk to_value static_block static_chunk
    gomp_iter_ull_static_next clip gomp_iter_ull_dynamic_next_locked fetch_chunk cas_chunk
    gomp_iter_ull_dynamic_next iterations_left guided_end gomp_iter_ull_guided_next_locked
    cas_guided
program = tt

-- `for (x = 10; x < 31; x += 3)`, seven iterations
abbrev whole : UllShare
whole = record { mode = 0; chunk_size = 0; end = 31; incr = 3; next = 10 }

abbrev twos : UllShare
twos = record { mode = 0; chunk_size = 2; end = 31; incr = 3; next = 10 }

whole-IsUpward : IsUpward whole
whole-IsUpward = record { up = refl; forward = omega arith; step = omega arith; top = omega arith }

twos-IsUpward : IsUpward twos
twos-IsUpward = record { up = refl; forward = omega arith; step = omega arith; top = omega arith }

-- thread 2 of 3 has the last two
last_block :
    gomp_iter_ull_static_next 3 2 0 whole
    ≡ record { ret = more; range = some (25, 31); trip = last_trip }
unfolding program
last_block = refl

static_covers_example : (i : ℕ) × (i < 3) × Serves 3 i 0 whole 22
static_covers_example = static_covers whole whole-IsUpward 3 (omega arith) refl 4 (omega arith)

-- thread 0 has 10, 13 and 16
first-Serves : Serves 3 0 0 whole 13
unfolding program
first-Serves = (10, 19, refl, omega arith, omega arith)

static_disjoint_example : ¬ Serves 3 2 0 whole 13
static_disjoint_example =
    static_disjoint whole whole-IsUpward 3 (omega arith) refl 0 2 13 (omega arith) (omega arith)
      first-Serves

count_lt : iteration_count twos + 2 < word64
unfolding program
count_lt = omega arith

chunk_covers_example : Serves 3 (5 / 2 % 3) (5 / 2 / 3) twos 25
chunk_covers_example =
    chunk_covers twos twos-IsUpward 3 (omega arith) (omega arith) count_lt 5 (omega arith)

-- the chunks of a dynamic loop are counted in values
abbrev shared : UllShare
shared = record { mode = 0; chunk_size = 6; end = 31; incr = 3; next = 10 }

shared-IsAscending : IsAscending shared
shared-IsAscending = record {
  up = refl;
  forward = omega arith;
  fits = omega arith;
  some_chunk = omega arith;
}

shared-IsGuided : IsGuided shared
shared-IsGuided = record {
  up = refl;
  forward = omega arith;
  fits = omega arith;
  some_chunk = omega arith;
  step = omega arith;
}

abbrev taken : Grab
taken = (some (16, 22), record shared { next = 22 })

-- another thread has taken `10 .. 16` meanwhile
retried : gomp_iter_ull_dynamic_next shared (16 ∷ 16 ∷ []) ≡ some taken
unfolding program
retried = refl

dynamic_cas-locked_example :
    (v : ℕ) × (10 ≤ v)
    × (v ≤ 31)
    × (taken ≡ gomp_iter_ull_dynamic_next_locked (record shared { next = v }))
dynamic_cas-locked_example =
    dynamic_cas-locked shared (16 ∷ 16 ∷ []) taken refl refl (omega arith)
      (omega arith, (omega arith, omega arith)) retried

cas_chunk-ends_example : (g : Grab) × (cas_chunk shared 6 10 (16 ∷ 22 ∷ 28 ∷ 28 ∷ []) ≡ some g)
cas_chunk-ends_example = cas_chunk-ends shared 6 10 (16 ∷ 22 ∷ []) 28 []

guided_retried :
    cas_guided 2 shared 10 (25 ∷ 25 ∷ []) ≡ some (some (25, 31), record shared { next = 31 })
unfolding program
guided_retried = refl
