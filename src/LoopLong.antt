-- ===== src/LoopLong.antt =====
-- Loops over `long` (libgomp/loop.c): a construct is set up by the first thread that reaches it, and
-- every thread takes ranges from it.
pub mod Init
pub mod Runtime
pub mod Whole
use libgomp.Prelude.{ℕ, List, Option, none, some, if◌then◌else◌, ◌>>=◌}
use libgomp.Prelude.Int.{ℤ}
use libgomp.IterUll.{Trips, finished, more, nothing}
use libgomp.IterLong.{
  LongShare, LongNext, LongGrab, gomp_iter_static_next, gomp_iter_dynamic_next,
  gomp_iter_dynamic_next_locked, gomp_iter_guided_next, gomp_iter_guided_next_locked,
}
use libgomp.Ordered.{
  OrderedShare, gomp_ordered_first, gomp_ordered_last, gomp_ordered_next, gomp_ordered_static_init,
  gomp_ordered_static_next, Sync, proceeds, blocks, gomp_ordered_sync,
}
use libgomp.LoopUll.Init.{Sched, static, dynamic, guided, team_size}
use libgomp.LoopUll.{Thread, fresh_line, no_line, is_done}
use Init.{LongArgs, init_long}

-- The work share of a loop, and the queue of its ORDERED region.
pub record LongLoop : Type 0 where
  pub sched : Sched
  pub ws : LongShare
  pub line : OrderedShare

-- What a call returns, `*istart` and `*iend` or `false`, and what it leaves.
pub record LongServed : Type 0 where
  pub range : Option (ℤ × ℤ)
  pub thread : Thread
  pub share : LongLoop

-- A call that synchronises first can block.
pub data LongStep : Type 0 where
  waits : LongStep
  goes_on : LongServed → LongStep

unfoldable pub new_long_loop : Option ℕ → List ℕ → LongArgs → Sched → LongLoop
new_long_loop team release a sched = record {
  sched = sched;
  ws = init_long team a sched;
  line = no_line release;
}

unfoldable pub new_ordered_long_loop : Option ℕ → List ℕ → LongArgs → Sched → LongLoop
new_ordered_long_loop team release a sched = record {
  sched = sched;
  ws = init_long team a sched;
  line = fresh_line team release;
}

-- `gomp_work_share_start`: the first thread sets the construct up, the others find it.
abbrev pub enter_long : Option LongLoop → Option LongLoop → Option LongLoop
enter_long none fresh = fresh
enter_long (some c) fresh = some c

abbrev pub accepted_long : LongNext → Option (ℤ × ℤ)
accepted_long r = elim r.ret [ more ↦ r.range | finished ↦ none | nothing ↦ none ]

abbrev pub serve_long : Thread → LongLoop → LongGrab → LongServed
serve_long thr c g = record { range = g.0; thread = thr; share = record c { ws = g.1 } }

unfoldable pub gomp_loop_static_next : Option ℕ → Thread → LongLoop → LongServed
gomp_loop_static_next team thr c =
    let r = gomp_iter_static_next (team_size team) thr.id thr.static_trip c.ws in
    record { range = accepted_long r; thread = record thr { static_trip = r.trip }; share = c }

-- `seen`: what the thread finds in `next`. `none` is a compare-and-swap loop that has not ended.
unfoldable pub gomp_loop_dynamic_next : List ℤ → Thread → LongLoop → Option LongServed
gomp_loop_dynamic_next seen thr c = do
  g ← gomp_iter_dynamic_next c.ws seen
  some (serve_long thr c g)

unfoldable pub gomp_loop_guided_next : Option ℕ → List ℤ → Thread → LongLoop → Option LongServed
gomp_loop_guided_next team seen thr c = do
  g ← gomp_iter_guided_next (team_size team) c.ws seen
  some (serve_long thr c g)

module _ (team : Option ℕ) (release : List ℕ) (a : LongArgs) (found : Option LongLoop) where
  unfoldable pub gomp_loop_static_start : Thread → Option LongServed
  gomp_loop_static_start thr = do
    c ← enter_long found (some (new_long_loop team release a static))
    some (gomp_loop_static_next team (record thr { static_trip = 0 }) c)

  unfoldable pub gomp_loop_dynamic_start : List ℤ → Thread → Option LongServed
  gomp_loop_dynamic_start seen thr = do
    c ← enter_long found (some (new_long_loop team release a dynamic))
    gomp_loop_dynamic_next seen thr c

  unfoldable pub gomp_loop_guided_start : List ℤ → Thread → Option LongServed
  gomp_loop_guided_start seen thr = do
    c ← enter_long found (some (new_long_loop team release a guided))
    gomp_loop_guided_next team seen thr c

  unfoldable pub gomp_loop_ordered_static_start : Thread → Option LongServed
  gomp_loop_ordered_static_start thr = do
    c ← enter_long found (do
      let c0 = new_ordered_long_loop team release a static
      line ← gomp_ordered_static_init team c0.line
      some (record c0 { line = line }))
    some (gomp_loop_static_next team (record thr { static_trip = 0 }) c)

  -- `if (ret) gomp_ordered_first ();`
  unfoldable pub join_long : Thread → LongLoop → LongGrab → Option LongServed
  join_long thr c (none, ws) = some (serve_long thr c (none, ws))
  join_long thr c (some r, ws) = do
    line ← gomp_ordered_first team thr.id c.line
    some (serve_long thr (record c { line = line }) (some r, ws))

  unfoldable pub gomp_loop_ordered_dynamic_start : Thread → Option LongServed
  gomp_loop_ordered_dynamic_start thr = do
    c ← enter_long found (some (new_ordered_long_loop team release a dynamic))
    join_long thr c (gomp_iter_dynamic_next_locked c.ws)

  unfoldable pub gomp_loop_ordered_guided_start : Thread → Option LongServed
  gomp_loop_ordered_guided_start thr = do
    c ← enter_long found (some (new_ordered_long_loop team release a guided))
    join_long thr c (gomp_iter_guided_next_locked (team_size team) c.ws)

-- `gomp_ordered_sync ()` first: the thread may block there.
abbrev pub synced_long :
    Option ℕ → Thread → LongLoop → (LongLoop → Option LongServed) → Option LongStep
synced_long team thr c body = do
  s ← gomp_ordered_sync team thr.id c.line
  elim s [
    | blocks ↦ some waits
    | proceeds line ↦ do r ← body (record c { line = line }); some (goes_on r)
  ]

unfoldable pub gomp_loop_ordered_static_next : Option ℕ → Thread → LongLoop → Option LongStep
gomp_loop_ordered_static_next team thr c = synced_long team thr c λ c'. do
  let r = gomp_iter_static_next (team_size team) thr.id thr.static_trip c'.ws
  line ← if is_done r.ret then some c'.line else gomp_ordered_static_next team thr.id c'.line
  some (record {
    range = accepted_long r;
    thread = record thr { static_trip = r.trip };
    share = record c' { line = line };
  })

-- `if (ret) gomp_ordered_next (); else gomp_ordered_last ();`
unfoldable pub pass_long : Option ℕ → Thread → LongLoop → LongGrab → Option LongServed
pass_long team thr c (none, ws) = do
  line ← gomp_ordered_last team c.line
  some (serve_long thr (record c { line = line }) (none, ws))
pass_long team thr c (some r, ws) = do
  line ← gomp_ordered_next team thr.id c.line
  some (serve_long thr (record c { line = line }) (some r, ws))

unfoldable pub gomp_loop_ordered_dynamic_next : Option ℕ → Thread → LongLoop → Option LongStep
gomp_loop_ordered_dynamic_next team thr c =
    synced_long team thr c λ c'. pass_long team thr c' (gomp_iter_dynamic_next_locked c'.ws)

unfoldable pub gomp_loop_ordered_guided_next : Option ℕ → Thread → LongLoop → Option LongStep
gomp_loop_ordered_guided_next team thr c =
    synced_long team thr c
      λ c'. pass_long team thr c' (gomp_iter_guided_next_locked (team_size team) c'.ws)
