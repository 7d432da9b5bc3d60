-- ===== src/LoopUll/Init.antt =====
-- `gomp_loop_ull_init` (libgomp/loop_ull.c).
use libgomp.Prelude.{
  ℕ, ◌+◌, ◌-◌, ◌^◌, Bool, true, false, Option, none, some, not, ◌&&◌, ◌||◌, ltb, if◌then◌else◌,
}
use libgomp.Word.{word64, add64, sub64, mul64}
use libgomp.IterUll.{UllShare}

-- `enum gomp_schedule_type`
pub data Sched : Type 0 where
  runtime static dynamic guided auto_sched binlpt_sched srr_sched : Sched

-- The arguments that describe a loop; they are the same in every thread.
pub record LoopArgs : Type 0 where
  pub up : Bool
  pub start : ℕ
  pub end : ℕ
  pub incr : ℕ
  pub chunk_size : ℕ

-- `team ? team->nthreads : 1`
abbrev pub team_size : Option ℕ → ℕ
team_size none = 1
team_size (some nthreads) = nthreads

abbrev pub flag : Bool → ℕ
flag b = if b then 1 else 0

-- A loop with zero iterations ends where it starts.
unfoldable pub loop_end : LoopArgs → ℕ
loop_end a =
    if (a.up && ltb a.end a.start) || (not a.up && ltb a.start a.end) then a.start else a.end

-- `(nthreads | size) < 1ULL << 31`: both are below it.
abbrev pub is_small : ℕ → ℕ → Bool
is_small nthreads size = ltb nthreads (2 ^ 31) && ltb size (2 ^ 31)

-- Whether fetch-and-add may be used, for the end and the scaled chunk size.
unfoldable pub fast_mode : Bool → ℕ → ℕ → ℕ → ℕ
fast_mode up nthreads end size =
    if up
    then (if is_small nthreads size
        then flag (ltb end (sub64 (word64 - 1) (mul64 (add64 nthreads 1) size)))
        else 0)
    else (if is_small nthreads (sub64 0 size)
        then flag (ltb (sub64 (mul64 (add64 nthreads 1) (sub64 0 size)) (word64 - 1)) end)
        else 0)

unfoldable pub is_dynamic : Sched → Bool
is_dynamic dynamic = true
is_dynamic s = false

unfoldable pub gomp_loop_ull_init : Option ℕ → LoopArgs → Sched → UllShare
gomp_loop_ull_init team a sched =
    let size = (if is_dynamic sched then mul64 a.chunk_size a.incr else a.chunk_size) in
    let fast =
      (if is_dynamic sched then fast_mode a.up (team_size team) (loop_end a) size else 0) in
    record {
      mode = if a.up then fast else fast + 2;
      chunk_size = size;
      end = loop_end a;
      incr = a.incr;
      next = a.start;
    }
