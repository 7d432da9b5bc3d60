-- ===== src/Tests/Signed.antt =====
-- Loops over `long` that count down (libgomp/loop.c and iter.c).
use libgomp.Prelude.{ℕ, ◌+◌, ◌≡◌, ◌<◌, refl, false, none, some, [], ◌∷◌, arith, Returns, inr}
use libgomp.Prelude.Int.{pos, negsuc, ◌+ℤ◌, ◌-ℤ◌, ◌*ℤ◌, IsLong}
use libgomp.Word.{add64, sub64, mul64}
use libgomp.IterUll.{block, chunk}
use libgomp.IterLong.{
  LongShare, clip_long, count_long, wrap_long, to_actual, block_long, chunk_long,
  gomp_iter_static_next, gomp_iter_dynamic_next_locked, fetch_long, cas_long,
  gomp_iter_dynamic_next, guided_end_long, gomp_iter_guided_next_locked, cas_guided_long,
  gomp_iter_guided_next,
}
use libgomp.IterLong.Count.{IsLoop, loop_down, dist, value_long, Within}
use libgomp.IterLong.Static.{ServesLong, static_long_covers, static_long_disjoint}
use libgomp.IterLong.Tiles.{TilesByLong, take_all_long}
use libgomp.LoopUll.Init.{dynamic, guided, is_dynamic}
use libgomp.LoopLong.Init.{LongArgs, long_end, fast_long, init_long}
use libgomp.LoopLong.Whole.{IsLongLoop, counts_down, init_long-TilesLong}

program : Unit {0}
unfolding ◌+ℤ◌ ◌-ℤ◌ ◌*ℤ◌ add64 sub64 mul64 block chunk clip_long count_long wrap_long to_actual
    block_long chunk_long gomp_iter_static_next gomp_iter_dynamic_next_locked guided_end_long
    gomp_iter_guided_next_locked is_dynamic long_end fast_long init_long take_all_long fetch_long
    cas_long gomp_iter_dynamic_next cas_guided_long gomp_iter_guided_next
program = tt

-- `for (x = 3; x > -9; x -= 2)`: 3, 1, -1, -3, -5, -7
abbrev whole : LongShare
whole = record { mode = false; chunk_size = pos 0; end = negsuc 8; incr = negsuc 1; next = pos 3 }

-- three threads get two values each; the second one gets -1 and -3
second_block : (gomp_iter_static_next 3 1 0 whole).range ≡ some (negsuc 0, negsuc 4)
unfolding program
second_block = refl

whole-IsLoop : IsLoop whole
unfolding program
whole-IsLoop = loop_down (omega arith) (omega arith) (omega arith)

start_fits : IsLong (pos 3)
start_fits = (omega arith, omega arith)

past_fits : IsLong (negsuc 8 +ℤ negsuc 1)
unfolding program
past_fits = (omega arith, omega arith)

third-Within : Within (pos 3) (value_long whole 3) (negsuc 8)
unfolding program
third-Within = inr (omega arith, omega arith)

static_long_covers_example : (i : ℕ) × (i < 3) × ServesLong 3 i 0 whole (value_long whole 3)
static_long_covers_example =
    static_long_covers whole whole-IsLoop 3 (omega arith) start_fits past_fits refl 3 third-Within

served_first : ServesLong 3 0 0 whole (pos 1)
unfolding program
served_first = (pos 3, negsuc 0, refl, inr (omega arith, omega arith))

static_long_disjoint_example : ¬ ServesLong 3 1 0 whole (pos 1)
static_long_disjoint_example =
    static_long_disjoint whole whole-IsLoop 3 (omega arith) start_fits past_fits refl 0 1 (pos 1)
      (omega arith) (omega arith) served_first

-- the same loop in chunks of two
abbrev args : LongArgs
args = record { start = pos 3; end = negsuc 8; incr = negsuc 1; chunk_size = pos 2 }

args-IsLongLoop : IsLongLoop args
unfolding program
args-IsLongLoop = record {
  counts = counts_down (omega arith) (omega arith) (omega arith);
  start_fits = (omega arith, omega arith);
  end_fits = (omega arith, omega arith);
  some_chunk = omega arith;
  chunk_fits = omega arith;
  scaled_fits = (omega arith, omega arith);
}

dynamic_ranges :
    take_all_long gomp_iter_dynamic_next_locked 4 (init_long none args dynamic)
    ≡ some ((pos 3, negsuc 0) ∷ (negsuc 0, negsuc 4) ∷ (negsuc 4, negsuc 8) ∷ [])
unfolding program
dynamic_ranges = refl

guided_ranges :
    take_all_long (gomp_iter_guided_next_locked 2) 4 (init_long none args guided)
    ≡ some ((pos 3, negsuc 2) ∷ (negsuc 2, negsuc 6) ∷ (negsuc 6, negsuc 8) ∷ [])
unfolding program
guided_ranges = refl

init_long-TilesLong_example :
    Returns
      (take_all_long gomp_iter_dynamic_next_locked
        (dist (pos 3) (long_end args) + 1)
        (init_long none args dynamic))
      (λ ranges. TilesByLong (negsuc 1) (pos 3) ranges (long_end args))
    × Returns
        (take_all_long
          (gomp_iter_guided_next_locked 2)
          (dist (pos 3) (long_end args) + 1)
          (init_long none args guided))
        (λ ranges. TilesByLong (negsuc 1) (pos 3) ranges (long_end args))
init_long-TilesLong_example = init_long-TilesLong none args args-IsLongLoop 2
