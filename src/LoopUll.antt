-- ===== src/LoopUll.antt =====
-- Loops over `unsigned long long` (libgomp/loop_ull.c): a construct is set up by the first thread
-- that reaches it, and every thread takes ranges from it.
pub mod Init
pub mod Runtime
pub mod Fast
pub mod Turns
use libgomp.Prelude.{
  ℕ, List, [], replicate, Bool, true, false, if◌then◌else◌, Option, none, some, ◌>>=◌,
}
use libgomp.IterUll.{
  UllShare, Trips, finished, more, nothing, StaticNext, Grab, gomp_iter_ull_static_next,
  gomp_iter_ull_dynamic_next, gomp_iter_ull_dynamic_next_locked, gomp_iter_ull_guided_next,
  gomp_iter_ull_guided_next_locked,
}
use libgomp.Ordered.{
  OrderedShare, no_owner, gomp_ordered_first, gomp_ordered_last, gomp_ordered_next,
  gomp_ordered_static_init, gomp_ordered_static_next, Sync, proceeds, blocks, gomp_ordered_sync,
}
use Init.{
  Sched, runtime, static, dynamic, guided, auto_sched, binlpt_sched, srr_sched, LoopArgs, team_size,
  gomp_loop_ull_init,
}

-- The work share of a loop, and the queue of its ORDERED region.
pub record Construct : Type 0 where
  pub sched : Sched
  pub ws : UllShare
  pub line : OrderedShare

-- The calling thread, `thr->ts`.
pub record Thread : Type 0 where
  pub id : ℕ
  pub static_trip : ℕ

-- What a call returns, `*istart` and `*iend` or `false`, and what it leaves. When a call returns
-- `false`, nobody reads the bounds.
pub record Served : Type 0 where
  pub range : Option (ℕ × ℕ)
  pub thread : Thread
  pub share : Construct

-- A call that synchronises first can block.
pub data Step : Type 0 where
  blocked : Step
  served : Served → Step

-- The queue that `gomp_init_work_share` sets up for an ORDERED region. The semaphores are the team's.
unfoldable pub fresh_line : Option ℕ → List ℕ → OrderedShare
fresh_line team release = record {
  team_ids = replicate (team_size team) 0;
  num_used = 0;
  owner = no_owner;
  cur = 0;
  release = release;
}

-- Without an ORDERED region there is no array, and the other fields are not used.
unfoldable pub no_line : List ℕ → OrderedShare
no_line release = record {
  team_ids = [];
  num_used = 0;
  owner = no_owner;
  cur = 0;
  release = release;
}

-- `gomp_work_share_start`: the first thread sets the construct up, the others find it.
abbrev pub enter : Option Construct → Option Construct → Option Construct
enter none fresh = fresh
enter (some c) fresh = some c

unfoldable pub new_loop : Option ℕ → List ℕ → LoopArgs → Sched → Construct
new_loop team release a sched = record {
  sched = sched;
  ws = gomp_loop_ull_init team a sched;
  line = no_line release;
}

unfoldable pub new_ordered_loop : Option ℕ → List ℕ → LoopArgs → Sched → Construct
new_ordered_loop team release a sched = record {
  sched = sched;
  ws = gomp_loop_ull_init team a sched;
  line = fresh_line team release;
}

abbrev pub accepted : StaticNext → Option (ℕ × ℕ)
accepted r = elim r.ret [ more ↦ r.range | finished ↦ none | nothing ↦ none ]

abbrev pub serve : Thread → Construct → Grab → Served
serve thr c g = record { range = g.0; thread = thr; share = record c { ws = g.1 } }

unfoldable pub gomp_loop_ull_static_next : Option ℕ → Thread → Construct → Served
gomp_loop_ull_static_next team thr c =
    let r = gomp_iter_ull_static_next (team_size team) thr.id thr.static_trip c.ws in
    record { range = accepted r; thread = record thr { static_trip = r.trip }; share = c }

-- `seen`: what the thread finds in `next`. `none` is a compare-and-swap loop that has not ended.
unfoldable pub gomp_loop_ull_dynamic_next : List ℕ → Thread → Construct → Option Served
gomp_loop_ull_dynamic_next seen thr c = do
  g ← gomp_iter_ull_dynamic_next c.ws seen
  some (serve thr c g)

unfoldable pub gomp_loop_ull_guided_next : Option ℕ → List ℕ → Thread → Construct → Option Served
gomp_loop_ull_guided_next team seen thr c = do
  g ← gomp_iter_ull_guided_next (team_size team) c.ws seen
  some (serve thr c g)

module _ (team : Option ℕ) (release : List ℕ) (a : LoopArgs) (found : Option Construct) where
  unfoldable pub gomp_loop_ull_static_start : Thread → Option Served
  gomp_loop_ull_static_start thr = do
    c ← enter found (some (new_loop team release a static))
    some (gomp_loop_ull_static_next team (record thr { static_trip = 0 }) c)

  unfoldable pub gomp_loop_ull_dynamic_start : List ℕ → Thread → Option Served
  gomp_loop_ull_dynamic_start seen thr = do
    c ← enter found (some (new_loop team release a dynamic))
    gomp_loop_ull_dynamic_next seen thr c

  unfoldable pub gomp_loop_ull_guided_start : List ℕ → Thread → Option Served
  gomp_loop_ull_guided_start seen thr = do
    c ← enter found (some (new_loop team release a guided))
    gomp_loop_ull_guided_next team seen thr c

  unfoldable pub gomp_loop_ull_ordered_static_start : Thread → Option Served
  gomp_loop_ull_ordered_static_start thr = do
    c ← enter found (do
      let c0 = new_ordered_loop team release a static
      line ← gomp_ordered_static_init team c0.line
      some (record c0 { line = line }))
    some (gomp_loop_ull_static_next team (record thr { static_trip = 0 }) c)

  -- `if (ret) gomp_ordered_first ();`
  unfoldable pub join_line : Thread → Construct → Grab → Option Served
  join_line thr c (none, ws) = some (serve thr c (none, ws))
  join_line thr c (some r, ws) = do
    line ← gomp_ordered_first team thr.id c.line
    some (serve thr (record c { line = line }) (some r, ws))

  unfoldable pub gomp_loop_ull_ordered_dynamic_start : Thread → Option Served
  gomp_loop_ull_ordered_dynamic_start thr = do
    c ← enter found (some (new_ordered_loop team release a dynamic))
    join_line thr c (gomp_iter_ull_dynamic_next_locked c.ws)

  unfoldable pub gomp_loop_ull_ordered_guided_start : Thread → Option Served
  gomp_loop_ull_ordered_guided_start thr = do
    c ← enter found (some (new_ordered_loop team release a guided))
    join_line thr c (gomp_iter_ull_guided_next_locked (team_size team) c.ws)

-- `gomp_ordered_sync ()` first: the thread may block there.
abbrev pub synced : Option ℕ → Thread → Construct → (Construct → Option Served) → Option Step
synced team thr c body = do
  s ← gomp_ordered_sync team thr.id c.line
  elim s [
    | blocks ↦ some blocked
    | proceeds line ↦ do r ← body (record c { line = line }); some (served r)
  ]

unfoldable pub is_done : Trips → Bool
is_done finished = true
is_done t = false

unfoldable pub gomp_loop_ull_ordered_static_next : Option ℕ → Thread → Construct → Option Step
gomp_loop_ull_ordered_static_next team thr c = synced team thr c λ c'. do
  let r = gomp_iter_ull_static_next (team_size team) thr.id thr.static_trip c'.ws
  line ← if is_done r.ret then some c'.line else gomp_ordered_static_next team thr.id c'.line
  some (record {
    range = accepted r;
    thread = record thr { static_trip = r.trip };
    share = record c' { line = line };
  })

-- `if (ret) gomp_ordered_next (); else gomp_ordered_last ();`
unfoldable pub pass_line : Option ℕ → Thread → Construct → Grab → Option Served
pass_line team thr c (none, ws) = do
  line ← gomp_ordered_last team c.line
  some (serve thr (record c { line = line }) (none, ws))
pass_line team thr c (some r, ws) = do
  line ← gomp_ordered_next team thr.id c.line
  some (serve thr (record c { line = line }) (some r, ws))

unfoldable pub gomp_loop_ull_ordered_dynamic_next : Option ℕ → Thread → Construct → Option Step
gomp_loop_ull_ordered_dynamic_next team thr c =
    synced team thr c λ c'. pass_line team thr c' (gomp_iter_ull_dynamic_next_locked c'.ws)

unfoldable pub gomp_loop_ull_ordered_guided_next : Option ℕ → Thread → Construct → Option Step
gomp_loop_ull_ordered_guided_next team thr c =
    synced team thr c
      λ c'. pass_line team thr c' (gomp_iter_ull_guided_next_locked (team_size team) c'.ws)
