-- ===== src/Tests/Long.antt =====
-- A loop over `long` that counts down (libgomp/iter.c).
use libgomp.Prelude.{◌≡◌, refl, false, some}
use libgomp.Prelude.Int.{pos, negsuc, ◌+ℤ◌, ◌-ℤ◌}
use libgomp.IterLong.{LongShare, clip_long, gomp_iter_dynamic_next_locked}

program : Unit {0}
unfolding ◌+ℤ◌ ◌-ℤ◌ clip_long gomp_iter_dynamic_next_locked
program = tt

-- `for (x = 3; x > -4; x -= 2)` in chunks of three
abbrev downward : LongShare
downward = record {
  mode = false;
  chunk_size = negsuc 5;
  end = negsuc 3;
  incr = negsuc 1;
  next = pos 3;
}

-- the first range, 3 to -3
first_range :
    gomp_iter_dynamic_next_locked downward
    ≡ (some (pos 3, negsuc 2), record downward { next = negsuc 2 })
unfolding program
first_range = refl
