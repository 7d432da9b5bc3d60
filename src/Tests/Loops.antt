-- ===== src/Tests/Loops.antt =====
-- The entry points of libgomp/loop_ull.c on a loop of seven iterations.
use libgomp.Prelude.{
  ℕ, zero, suc, ◌+◌, ◌*◌, ◌%◌, ◌<◌, ◌≡◌, refl, inr, ◌-◌, ◌==◌, if◌then◌else◌, List, [], ◌∷◌, true,
  false, none, some, arith, ◌!◌, Returns,
}
use Prim.Native.Nat.{min}
use libgomp.Word.{add64, sub64, mul64, add32}
use libgomp.IterUll.{
  gomp_iter_ull_dynamic_next_locked, gomp_iter_ull_guided_next_locked, clip, fetch_chunk,
  gomp_iter_ull_dynamic_next, cas_chunk,
}
use libgomp.IterUll.Tiles.{Tiles, TilesBy, take_all}
use libgomp.IterUll.Fetch.{fetch_all}
use libgomp.Ordered.{in_team, tail_index, sem_post, gomp_ordered_first}
use libgomp.Ordered.Refine.{Refines}
use libgomp.LoopUll.Init.{
  dynamic, guided, LoopArgs, loop_end, fast_mode, is_dynamic, gomp_loop_ull_init,
}
use libgomp.LoopUll.Fast.{IsForward, init-Tiles, init_fetch-Tiles}
use libgomp.LoopUll.{
  Construct, Thread, fresh_line, no_line, new_loop, new_ordered_loop, gomp_loop_ull_dynamic_next,
  gomp_loop_ull_dynamic_start, gomp_loop_ull_ordered_dynamic_start,
  gomp_loop_ull_ordered_guided_start, gomp_loop_ull_ordered_dynamic_next,
  gomp_loop_ull_ordered_guided_next, join_line,
}
use libgomp.LoopUll.Turns.{
  Joins, Passes, fresh_line-Refines, entered, ordered_start-Joins, ordered_next-Passes,
}

program : Unit {0}
unfolding add64 sub64 mul64 add32 loop_end fast_mode is_dynamic gomp_loop_ull_init clip fetch_chunk
    gomp_iter_ull_dynamic_next gomp_iter_ull_dynamic_next_locked cas_chunk fresh_line no_line
    new_loop new_ordered_loop gomp_loop_ull_dynamic_next gomp_loop_ull_dynamic_start in_team
    tail_index sem_post gomp_ordered_first join_line gomp_loop_ull_ordered_dynamic_start
program = tt

-- `for (x = 10; x < 31; x += 3)` in chunks of two
abbrev args : LoopArgs
args = record { up = true; start = 10; end = 31; incr = 3; chunk_size = 2 }

args-IsForward : IsForward args
args-IsForward = record {
  upward = refl;
  start_fits = omega arith;
  end_fits = omega arith;
  step = omega arith;
  some_chunk = omega arith;
  chunk_fits = omega arith;
}

is_fast : (gomp_loop_ull_init (some 2) args dynamic).mode % 2 ≡ 1
unfolding program
is_fast = refl

end_lem : loop_end args ≡ 31
unfolding program
end_lem = refl

last_found : 10 + (4 - 1) * (2 * 3) < loop_end args
last_found = rw end_lem (omega arith)

init-Tiles_example :
    Returns
      (take_all gomp_iter_ull_dynamic_next_locked
        (loop_end args + 1)
        (gomp_loop_ull_init (some 2) args dynamic))
      (λ ranges. TilesBy 3 10 ranges (loop_end args))
    × Returns
        (take_all
          (gomp_iter_ull_guided_next_locked 2)
          (loop_end args + 1)
          (gomp_loop_ull_init (some 2) args guided))
        (λ ranges. TilesBy 3 10 ranges (loop_end args))
init-Tiles_example = init-Tiles args args-IsForward (some 2) 2

-- four calls find work, and the two threads are each refused once
init_fetch-Tiles_example :
    Tiles 10
      (fetch_all (4 + 2) (gomp_loop_ull_init (some 2) args dynamic))
      (min (10 + (4 + 2) * (2 * 3)) (loop_end args))
init_fetch-Tiles_example =
    init_fetch-Tiles args args-IsForward (some 2) is_fast 4 2 (omega arith) (inr last_found)

-- the semaphores of a team of two
abbrev posts : List ℕ
posts = 0 ∷ 0 ∷ []

no_posts : (t : ℕ) → t < 2 → posts ! t ≡ 0
no_posts zero h = refl
no_posts (suc zero) h = refl
no_posts (suc (suc t)) h = absurd (omega arith)

fresh_line-Refines_two : Refines 2 (fresh_line (some 2) posts) [] false
fresh_line-Refines_two = fresh_line-Refines 2 posts (omega arith) (omega arith) refl no_posts

abbrev thread : Thread
thread = record { id = 1; static_trip = 0 }

new_line-Refines : Refines 2 (entered 2 posts args dynamic none).line [] false
unfolding new_ordered_loop
new_line-Refines = fresh_line-Refines_two

new_room : (entered 2 posts args dynamic none).line.num_used < 2
unfolding new_ordered_loop fresh_line
new_room = omega arith

ordered_start-Joins_example :
    Returns (gomp_loop_ull_ordered_dynamic_start (some 2) posts args none thread) (
      Joins 2 [] false 1 (gomp_iter_ull_dynamic_next_locked (entered 2 posts args dynamic none).ws))
    × Returns (gomp_loop_ull_ordered_guided_start (some 2) posts args none thread) (
        Joins 2 [] false 1
          (gomp_iter_ull_guided_next_locked 2 (entered 2 posts args guided none).ws))
ordered_start-Joins_example =
    ordered_start-Joins 2 posts args none thread [] false new_line-Refines (omega arith) new_room
      (λ e. refl)

-- thread 1 waits at the head, with its post
abbrev waiting : Construct
waiting = record {
  sched = dynamic;
  ws = record { mode = 0; chunk_size = 6; end = 31; incr = 3; next = 16 };
  line = record {
    team_ids = 1 ∷ 0 ∷ [];
    num_used = 1;
    owner = 4_294_967_295;
    cur = 0;
    release = 0 ∷ 1 ∷ [];
  };
}

waiting-Refines : Refines 2 waiting.line (1 ∷ []) false
waiting-Refines = record {
  is_ring = record {
    several = omega arith;
    small = omega arith;
    cells = refl;
    cur-lt = omega arith;
    used_le = omega arith;
  };
  line = refl;
  members = (omega arith, tt);
  owns = refl;
  counts = refl;
  posts = one_post;
}
  where
    one_post : (t : ℕ) → t < 2 → waiting.line.release ! t ≡ (if 1 == t then 1 else 0)
    one_post zero h = refl
    one_post (suc zero) h = refl
    one_post (suc (suc t)) h = absurd (omega arith)

ordered_next-Passes_example :
    Returns
      (gomp_loop_ull_ordered_dynamic_next (some 2) thread waiting)
      (Passes 2 1 1 [] (gomp_iter_ull_dynamic_next_locked waiting.ws))
    × Returns
        (gomp_loop_ull_ordered_guided_next (some 2) thread waiting)
        (Passes 2 1 1 [] (gomp_iter_ull_guided_next_locked 2 waiting.ws))
ordered_next-Passes_example =
    ordered_next-Passes 2 thread 1 [] waiting false waiting-Refines (omega arith)
