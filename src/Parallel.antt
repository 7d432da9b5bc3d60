-- ===== src/Parallel.antt =====
-- How many threads a parallel region gets (libgomp/parallel.c and config/linux/proc.c).
pub mod Bounds
use libgomp.Prelude.{
  ℕ, ◌+◌, ◌-◌, ◌%◌, List, [], ◌∷◌, Option, none, some, Bool, true, false, not, ◌&&◌, ◌||◌, ◌==◌,
  ltb, leb, if◌then◌else◌,
}
use libgomp.Word.{word32, word64, add32, sub32, add64, sub64}

-- The internal control variables that are read.
pub record Limits : Type 0 where
  pub nthreads_var : ℕ
  pub thread_limit_var : ℕ
  pub dyn_var : Bool
  pub nest_var : Bool
  pub max_active_levels_var : ℕ

-- The calling thread: its nesting, whether it is in a team, and `threads_busy` of its pool, if it has
-- one.
pub record Caller : Type 0 where
  pub active_level : ℕ
  pub in_team : Bool
  pub busy : Option ℕ

-- `gomp_dynamic_max_threads`, from the number of processors and the load that the system reports.
unfoldable pub gomp_dynamic_max_threads : ℕ → ℕ → ℕ → ℕ
gomp_dynamic_max_threads nthreads_var procs loadavg =
    let n_onln = (if ltb (nthreads_var % word32) procs then nthreads_var % word32 else procs) in
    if leb n_onln loadavg then 1 else n_onln - loadavg

abbrev pub smaller : ℕ → ℕ → ℕ
smaller a b = if ltb a b then a else b

-- `max_num_threads`: what is asked for, and if threads are dynamic no more than the system has room
-- for, nor more than there are sections.
unfoldable pub max_threads : Limits → ℕ → ℕ → ℕ → ℕ
max_threads icv specified count dyn =
    let requested = (if specified == 0 then icv.nthreads_var % word32 else specified) in
    let bounded = smaller dyn requested in
    if icv.dyn_var
    then (if not (count == 0) && ltb count bounded then count else bounded)
    else requested

-- `UINT_MAX` stands for infinity.
abbrev pub unlimited : ℕ
unlimited = word32 - 1

-- `icv->thread_limit_var - busy + 1 < num_threads`, in `unsigned long`
unfoldable pub room_for : Limits → ℕ → ℕ → ℕ
room_for icv busy wanted =
    let room = add64 (sub64 icv.thread_limit_var busy) 1 in
    if ltb room wanted then room % word32 else wanted

-- The compare-and-swap loop: `found` is what the swap finds in `threads_busy`, and `seen` what each
-- later round reads and then finds. `none` is a loop that has not ended.
unfoldable pub reserve : Limits → ℕ → ℕ → List (ℕ × ℕ) → Option (ℕ × ℕ)
reserve icv wanted busy [] = none
reserve icv wanted busy ((found, next) ∷ seen) =
    let n = room_for icv busy wanted in
    let retry = reserve icv wanted next seen in
    if found == busy then some (n, sub64 (add64 busy n) 1) else retry

-- The number of threads, and `threads_busy` afterwards. A thread in a team has a pool.
unfoldable pub gomp_resolve_num_threads :
    Limits → ℕ → ℕ → ℕ → List (ℕ × ℕ) → Caller → Option (ℕ × Option ℕ)
gomp_resolve_num_threads icv specified count dyn seen thr =
    let wanted = max_threads icv specified count dyn in
    if specified == 1
      || (leb 1 thr.active_level && not icv.nest_var)
      || leb icv.max_active_levels_var thr.active_level
    then some (1, thr.busy)
    else if icv.thread_limit_var == unlimited || wanted == 1
    then some (wanted, thr.busy)
    else if thr.in_team
    then (elim thr.busy [
      | none ↦ none
      | some busy ↦ elim (reserve icv wanted busy seen) [
        | none ↦ none
        | some (n, b) ↦ some (n, some b)
      ]
    ])
    else (let n = (if ltb icv.thread_limit_var wanted then icv.thread_limit_var else wanted) in
        some (n, elim thr.busy [ none ↦ none | some b ↦ some n ]))

-- `GOMP_parallel_end`, after `gomp_team_end`: what `threads_busy` becomes, for a team of `nthreads`
-- and the thread that ended it.
unfoldable pub gomp_parallel_end : Limits → ℕ → Caller → Option ℕ
gomp_parallel_end icv nthreads outer =
    if icv.thread_limit_var == unlimited || leb nthreads 1 then outer.busy else elim outer.busy [
      | none ↦ none
      | some busy ↦ some (if outer.in_team then add64 busy (sub64 1 nthreads) else 1)
    ]
