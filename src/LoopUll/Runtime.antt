-- ===== src/LoopUll/Runtime.antt =====
-- The `runtime` schedule of libgomp/loop_ull.c: the schedule is that of the environment at the start
-- and that of the construct afterwards.
use libgomp.Prelude.{ℕ, List, Option, none, some}
use libgomp.LoopUll.Init.{
  Sched, runtime, static, dynamic, guided, auto_sched, binlpt_sched, srr_sched, LoopArgs,
}
use libgomp.LoopUll.{
  Construct, Thread, Served, Step, gomp_loop_ull_static_start, gomp_loop_ull_dynamic_start,
  gomp_loop_ull_guided_start, gomp_loop_ull_ordered_static_start,
  gomp_loop_ull_ordered_dynamic_start, gomp_loop_ull_ordered_guided_start,
  gomp_loop_ull_static_next, gomp_loop_ull_dynamic_next, gomp_loop_ull_guided_next,
  gomp_loop_ull_ordered_static_next, gomp_loop_ull_ordered_dynamic_next,
  gomp_loop_ull_ordered_guided_next,
}

-- `icv->run_sched_var` and `icv->run_sched_modifier`
pub record Icv : Type 0 where
  pub run_sched_var : Sched
  pub run_sched_modifier : ℕ

-- The arguments with the chunk size of the environment, or with none for `auto`.
abbrev pub with_chunk : LoopArgs → ℕ → LoopArgs
with_chunk a size = record a { chunk_size = size }

module _ (team : Option ℕ) (icv : Icv) (release : List ℕ) (a : LoopArgs)
    (found : Option Construct) where
  abbrev pub chunked : LoopArgs
  chunked = with_chunk a icv.run_sched_modifier

  -- `abort ()` is a fault.
  unfoldable pub gomp_loop_ull_runtime_start : List ℕ → Thread → Option Served
  gomp_loop_ull_runtime_start seen thr = elim icv.run_sched_var [
    | static ↦ gomp_loop_ull_static_start team release chunked found thr
    | dynamic ↦ gomp_loop_ull_dynamic_start team release chunked found seen thr
    | guided ↦ gomp_loop_ull_guided_start team release chunked found seen thr
    | auto_sched ↦ gomp_loop_ull_static_start team release (with_chunk a 0) found thr
    | runtime ↦ none
    | binlpt_sched ↦ none
    | srr_sched ↦ none
  ]

  unfoldable pub gomp_loop_ull_ordered_runtime_start : Thread → Option Served
  gomp_loop_ull_ordered_runtime_start thr = elim icv.run_sched_var [
    | static ↦ gomp_loop_ull_ordered_static_start team release chunked found thr
    | dynamic ↦ gomp_loop_ull_ordered_dynamic_start team release chunked found thr
    | guided ↦ gomp_loop_ull_ordered_guided_start team release chunked found thr
    | auto_sched ↦ gomp_loop_ull_ordered_static_start team release (with_chunk a 0) found thr
    | runtime ↦ none
    | binlpt_sched ↦ none
    | srr_sched ↦ none
  ]

unfoldable pub gomp_loop_ull_runtime_next : Option ℕ → List ℕ → Thread → Construct → Option Served
gomp_loop_ull_runtime_next team seen thr c = elim c.sched [
  | static ↦ some (gomp_loop_ull_static_next team thr c)
  | auto_sched ↦ some (gomp_loop_ull_static_next team thr c)
  | dynamic ↦ gomp_loop_ull_dynamic_next seen thr c
  | guided ↦ gomp_loop_ull_guided_next team seen thr c
  | runtime ↦ none
  | binlpt_sched ↦ none
  | srr_sched ↦ none
]

unfoldable pub gomp_loop_ull_ordered_runtime_next : Option ℕ → Thread → Construct → Option Step
gomp_loop_ull_ordered_runtime_next team thr c = elim c.sched [
  | static ↦ gomp_loop_ull_ordered_static_next team thr c
  | auto_sched ↦ gomp_loop_ull_ordered_static_next team thr c
  | dynamic ↦ gomp_loop_ull_ordered_dynamic_next team thr c
  | guided ↦ gomp_loop_ull_ordered_guided_next team thr c
  | runtime ↦ none
  | binlpt_sched ↦ none
  | srr_sched ↦ none
]
