-- ===== src/MapLoop.antt =====
-- The loops whose workload is known (libgomp/loop.c): the table of the registered loops,
-- `omp_set_workload`, and the start of a BinLPT or SRR loop.
pub mod Table
pub mod Whole
use libgomp.Prelude.{
  ℕ, zero, suc, ◌+◌, ◌%◌, List, [], ◌∷◌, Bool, true, false, Option, none, some, ◌==◌, ltb,
  if◌then◌else◌, get_elem?, write, replicate, ◌>>=◌,
}
use libgomp.Prelude.Int.{ℤ}
use libgomp.Word.{word32}
use libgomp.Binlpt.{binlpt_balance}
use libgomp.Srr.{Schedule, srr_balance}
use libgomp.MapIter.{MapShare, Range, gomp_iter_binlpt_next, gomp_iter_srr_next}

-- `NR_LOOPS`
abbrev pub nr_loops : ℕ
nr_loops = 32

-- `struct loop`; a name is its bytes, and a freed pointer is NULL.
pub record Loop : Type 0 where
  pub name : Option (List ℕ)
  pub taskmap : Option (List ℕ)
  pub override : Bool

-- The global variables. `curr_loop` is `none` for -1. `tasks` is the array of the program that
-- `__tasks` points to.
pub record Globals : Type 0 where
  pub loops : List Loop
  pub curr_loop : Option ℕ
  pub tasks : List ℕ
  pub ntasks : ℕ
  pub nchunks : ℕ

-- `init_loop_struct`, which leaves the other fields.
abbrev pub init_loop_struct : Loop → List ℕ → Loop
init_loop_struct l name = record l { name = some name }

-- The search for a slot without a name, from the slot `i` on. `none` is `abort ()`.
unfoldable pub find_slot : List Loop → ℕ → List ℕ → Option (ℕ × List Loop)
find_slot [] i name = none
find_slot (l ∷ ls) i name =
    let rest = find_slot ls (i + 1) name in
    elim l.name [
      | none ↦ some (i, init_loop_struct l name ∷ ls)
      | some _ ↦ do (j, ls') ← rest; some (j, l ∷ ls')
    ]

unfoldable pub omp_loop_register : List ℕ → Globals → Option (ℕ × Globals)
omp_loop_register name g = do (i, ls) ← find_slot g.loops 0 name; some (i, record g { loops = ls })

-- A failed `assert` faults.
unfoldable pub omp_loop_unregister : ℕ → Globals → Option Globals
omp_loop_unregister loop_id g =
    if ltb loop_id nr_loops
    then (do
      l ← get_elem? g.loops loop_id
      ls ← write g.loops loop_id (record l { name = none; taskmap = none })
      some (record g { loops = ls }))
    else none

unfoldable pub omp_set_workload : ℕ → ℕ → List ℕ → ℕ → Bool → Globals → Option Globals
omp_set_workload team_id loop_id tasks ntasks override g =
    if ltb loop_id nr_loops
    then (if team_id == 0
        then (do
          l ← get_elem? g.loops loop_id
          ls ← write g.loops loop_id (record l { override = override })
          some (record g { loops = ls; curr_loop = some loop_id; tasks = tasks; ntasks = ntasks }))
        else none)
    else none

-- The two schedules that balance the loads first.
pub data Balancer : Type 0 where
  binlpt_balancer srr_balancer : Balancer

-- `num_threads`, or the size of the team if it is 0.
unfoldable pub resolve_threads : ℕ → Option ℕ → ℕ
resolve_threads num_threads team =
    if num_threads == 0 then elim team [ none ↦ 1 | some n ↦ n ] else num_threads

-- `__nchunks = chunk_size; if (__nchunks == 1) __nchunks = num_threads;`
unfoldable pub chunk_count : ℕ → ℕ → ℕ
chunk_count chunk_size nthreads = if chunk_size % word32 == 1 then nthreads else chunk_size % word32

abbrev pub count_chunks : Balancer → ℕ → ℕ → Globals → Globals
count_chunks binlpt_balancer chunk_size nthreads g = record g {
  nchunks = chunk_count chunk_size nthreads;
}
count_chunks srr_balancer chunk_size nthreads g = g

-- `balance (__tasks, __ntasks, num_threads)`
unfoldable pub balance : ℕ → Balancer → ℕ → Globals → Option (List ℕ × Globals)
balance junk binlpt_balancer nthreads g = do
  m ← binlpt_balance junk g.tasks g.ntasks nthreads g.nchunks
  some (m, g)
balance junk srr_balancer nthreads g = do
  s ← srr_balance junk g.tasks g.ntasks nthreads
  some (s.taskmap, record g { tasks = s.tasks })

-- A mapping that the loop has is kept, unless it is overridden.
unfoldable pub refresh : ℕ → Balancer → ℕ → Loop → Globals → Option (List ℕ × Globals)
refresh junk b nthreads l g =
    let fresh_map = balance junk b nthreads g in
    if l.override then fresh_map else elim l.taskmap [ none ↦ fresh_map | some m ↦ some (m, g) ]

-- The cases of `gomp_loop_init` for the two schedules: the fields that they use.
unfoldable pub gomp_loop_init :
    ℕ → Option ℕ → Balancer → ℤ → ℕ → ℕ → Globals → Option (MapShare × Globals)
gomp_loop_init junk team b start chunk_size num_threads g = do
  let nthreads = resolve_threads num_threads team
  let g1 : Globals = count_chunks b chunk_size nthreads g
  i ← g1.curr_loop
  l ← get_elem? g1.loops i
  (m, g2) ← refresh junk b nthreads l g1
  ls ← write g2.loops i (record l { taskmap = some m })
  some (
    record { loop_start = start; taskmap = m; thread_start = replicate nthreads 0 },
    record g2 { loops = ls },
  )

-- The first thread sets the work share up, the others find it.
unfoldable pub enter_map :
    ℕ → Option ℕ → Balancer → ℤ → ℕ → Option MapShare → Globals → Option (MapShare × Globals)
enter_map junk team b start chunk_size none g = gomp_loop_init junk team b start chunk_size 0 g
enter_map junk team b start chunk_size (some ws) g = some (ws, g)

module _ (junk : ℕ) (team : Option ℕ) (tid : ℕ) (start : ℤ) (chunk_size : ℕ)
    (found : Option MapShare) where
  unfoldable pub gomp_loop_binlpt_start : Globals → Option (Range × MapShare × Globals)
  gomp_loop_binlpt_start g = do
    (ws, g') ← enter_map junk team binlpt_balancer start chunk_size found g
    (r, ws') ← gomp_iter_binlpt_next g'.ntasks tid ws
    some (r, ws', g')

  unfoldable pub gomp_loop_srr_start : Globals → Option (Range × MapShare × Globals)
  gomp_loop_srr_start g = do
    (ws, g') ← enter_map junk team srr_balancer start chunk_size found g
    (r, ws') ← gomp_iter_srr_next g'.ntasks tid ws
    some (r, ws', g')
