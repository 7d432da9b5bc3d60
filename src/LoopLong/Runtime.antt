-- ===== src/LoopLong/Runtime.antt =====
-- The `runtime` schedule of libgomp/loop.c: the schedule is that of the environment at the start and
-- that of the construct afterwards.
use libgomp.Prelude.{ℕ, List, Option, none, some, ◌>>=◌}
use libgomp.Prelude.Int.{ℤ, pos}
use libgomp.LoopUll.Init.{runtime, static, dynamic, guided, auto_sched, binlpt_sched, srr_sched}
use libgomp.LoopUll.{Thread}
use libgomp.LoopUll.Runtime.{Icv}
use libgomp.MapIter.{MapShare, Range, gomp_iter_binlpt_next, gomp_iter_srr_next}
use libgomp.MapLoop.{Globals, gomp_loop_binlpt_start, gomp_loop_srr_start}
use libgomp.LoopLong.Init.{LongArgs}
use libgomp.LoopLong.{
  LongLoop, LongServed, LongStep, gomp_loop_static_start, gomp_loop_dynamic_start,
  gomp_loop_guided_start, gomp_loop_ordered_static_start, gomp_loop_ordered_dynamic_start,
  gomp_loop_ordered_guided_start, gomp_loop_static_next, gomp_loop_dynamic_next,
  gomp_loop_guided_next, gomp_loop_ordered_static_next, gomp_loop_ordered_dynamic_next,
  gomp_loop_ordered_guided_next,
}

-- The work share of a loop by its schedule: one with a task map has other fields than the others.
pub data AnyShare : Type 0 where
  by_long : LongLoop → AnyShare
  by_binlpt by_srr : MapShare → AnyShare

pub record AnyServed : Type 0 where
  pub range : Range
  pub thread : Thread
  pub share : AnyShare
  pub globals : Globals

abbrev pub long_served : Globals → LongServed → AnyServed
long_served g r = record {
  range = r.range;
  thread = r.thread;
  share = by_long r.share;
  globals = g;
}

-- The construct that the thread finds, if it has the fields that the schedule reads.
abbrev pub find_long : Option AnyShare → Option (Option LongLoop)
find_long none = some none
find_long (some (by_long c)) = some (some c)
find_long (some c) = none

abbrev pub find_map : Option AnyShare → Option (Option MapShare)
find_map none = some none
find_map (some (by_binlpt m)) = some (some m)
find_map (some (by_srr m)) = some (some m)
find_map (some (by_long c)) = none

abbrev pub with_size : LongArgs → ℕ → LongArgs
with_size a size = record a { chunk_size = pos size }

module _ (junk : ℕ) (team : Option ℕ) (icv : Icv) (release : List ℕ) (a : LongArgs)
    (found : Option AnyShare) (seen : List ℤ) (thr : Thread) where
  abbrev pub sized : LongArgs
  sized = with_size a icv.run_sched_modifier

  -- `abort ()` is a fault.
  unfoldable pub gomp_loop_runtime_start : Globals → Option AnyServed
  gomp_loop_runtime_start g = elim icv.run_sched_var [
    | static ↦ do
      c ← find_long found
      r ← gomp_loop_static_start team release sized c thr
      some (long_served g r)
    | dynamic ↦ do
      c ← find_long found
      r ← gomp_loop_dynamic_start team release sized c seen thr
      some (long_served g r)
    | guided ↦ do
      c ← find_long found
      r ← gomp_loop_guided_start team release sized c seen thr
      some (long_served g r)
    | binlpt_sched ↦ do
      c ← find_map found
      (r, ws, g') ← gomp_loop_binlpt_start junk team thr.id a.start icv.run_sched_modifier c g
      some (record { range = r; thread = thr; share = by_binlpt ws; globals = g' })
    | srr_sched ↦ do
      c ← find_map found
      (r, ws, g') ← gomp_loop_srr_start junk team thr.id a.start icv.run_sched_modifier c g
      some (record { range = r; thread = thr; share = by_srr ws; globals = g' })
    | auto_sched ↦ do
      c ← find_long found
      r ← gomp_loop_static_start team release (with_size a 0) c thr
      some (long_served g r)
    | runtime ↦ none
  ]

module _ (team : Option ℕ) (icv : Icv) (release : List ℕ) (a : LongArgs) (found : Option LongLoop)
    (thr : Thread) where
  unfoldable pub gomp_loop_ordered_runtime_start : Option LongServed
  gomp_loop_ordered_runtime_start = elim icv.run_sched_var [
    | static ↦
        gomp_loop_ordered_static_start team release (with_size a icv.run_sched_modifier) found thr
    | dynamic ↦
        gomp_loop_ordered_dynamic_start team release (with_size a icv.run_sched_modifier) found thr
    | guided ↦
        gomp_loop_ordered_guided_start team release (with_size a icv.run_sched_modifier) found thr
    | auto_sched ↦ gomp_loop_ordered_static_start team release (with_size a 0) found thr
    | runtime ↦ none
    | binlpt_sched ↦ none
    | srr_sched ↦ none
  ]

-- The loops without a task map.
unfoldable pub long_runtime_next :
    Option ℕ → List ℤ → Thread → Globals → LongLoop → Option AnyServed
long_runtime_next team seen thr g c = elim c.sched [
  | static ↦ some (long_served g (gomp_loop_static_next team thr c))
  | auto_sched ↦ some (long_served g (gomp_loop_static_next team thr c))
  | dynamic ↦ do r ← gomp_loop_dynamic_next seen thr c; some (long_served g r)
  | guided ↦ do r ← gomp_loop_guided_next team seen thr c; some (long_served g r)
  | runtime ↦ none
  | binlpt_sched ↦ none
  | srr_sched ↦ none
]

unfoldable pub gomp_loop_runtime_next :
    Option ℕ → List ℤ → Thread → Globals → AnyShare → Option AnyServed
gomp_loop_runtime_next team seen thr g (by_long c) = long_runtime_next team seen thr g c
gomp_loop_runtime_next team seen thr g (by_binlpt m) = do
  (r, ws) ← gomp_iter_binlpt_next g.ntasks thr.id m
  some (record { range = r; thread = thr; share = by_binlpt ws; globals = g })
gomp_loop_runtime_next team seen thr g (by_srr m) = do
  (r, ws) ← gomp_iter_srr_next g.ntasks thr.id m
  some (record { range = r; thread = thr; share = by_srr ws; globals = g })

unfoldable pub gomp_loop_ordered_runtime_next : Option ℕ → Thread → LongLoop → Option LongStep
gomp_loop_ordered_runtime_next team thr c = elim c.sched [
  | static ↦ gomp_loop_ordered_static_next team thr c
  | auto_sched ↦ gomp_loop_ordered_static_next team thr c
  | dynamic ↦ gomp_loop_ordered_dynamic_next team thr c
  | guided ↦ gomp_loop_ordered_guided_next team thr c
  | runtime ↦ none
  | binlpt_sched ↦ none
  | srr_sched ↦ none
]
