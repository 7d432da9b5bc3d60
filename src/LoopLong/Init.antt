-- ===== src/LoopLong/Init.antt =====
-- `gomp_loop_init` (libgomp/loop.c) for the schedules static, dynamic, guided and auto.
use libgomp.Prelude.{ℕ, ◌+◌, ◌-◌, ◌^◌, Bool, false, Option, ◌&&◌, ◌||◌, if◌then◌else◌}
use libgomp.Prelude.Int.{ℤ, pos, ◌-ℤ◌, ◌*ℤ◌, ltb_ℤ}
use libgomp.LoopUll.Init.{Sched, team_size, is_small, is_dynamic}
use libgomp.IterLong.{LongShare, to_unsigned, wrap_long}

-- The arguments that describe a loop; they are the same in every thread.
pub record LongArgs : Type 0 where
  pub start : ℤ
  pub end : ℤ
  pub incr : ℤ
  pub chunk_size : ℤ

-- A loop with zero iterations ends where it starts.
unfoldable pub long_end : LongArgs → ℤ
long_end a =
    if (ltb_ℤ (pos 0) a.incr && ltb_ℤ a.end a.start)
      || (ltb_ℤ a.incr (pos 0) && ltb_ℤ a.start a.end)
    then a.start
    else a.end

abbrev pub long_max : ℤ
long_max = pos (2 ^ 63 - 1)

-- Whether fetch-and-add may be used, for the end and the scaled chunk size.
unfoldable pub fast_long : ℤ → ℕ → ℤ → ℤ → Bool
fast_long incr nthreads end size =
    if ltb_ℤ (pos 0) incr
    then (if is_small nthreads (to_unsigned size)
        then ltb_ℤ end (long_max -ℤ pos (nthreads + 1) *ℤ size)
        else false)
    else (if is_small nthreads (to_unsigned (pos 0 -ℤ size))
        then ltb_ℤ (pos (nthreads + 1) *ℤ (pos 0 -ℤ size) -ℤ long_max) end
        else false)

-- For the other schedules `mode` is not used.
unfoldable pub init_long : Option ℕ → LongArgs → Sched → LongShare
init_long team a sched =
    let size = (if is_dynamic sched then wrap_long (a.chunk_size *ℤ a.incr) else a.chunk_size) in
    record {
      mode =
          if is_dynamic sched then fast_long a.incr (team_size team) (long_end a) size else false;
      chunk_size = size;
      end = long_end a;
      incr = a.incr;
      next = a.start;
    }
