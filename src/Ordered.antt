-- ===== src/Ordered.antt =====
-- The ORDERED construct (libgomp/ordered.c): the circular queue of the threads that hold iterations,
-- and the semaphores by which one lets the next into the ordered region.
pub mod Queue
pub mod Refine
pub mod Pass
pub mod Synced
use libgomp.Prelude.{
  ℕ, zero, suc, ◌+◌, ◌-◌, List, Option, none, some, Bool, ◌==◌, ltb, leb, if◌then◌else◌, get_elem?,
  write, ◌>>=◌,
}
use libgomp.Word.{word32, add32, sub32}

-- The fields of `struct gomp_work_share` for the queue, and `team->ordered_release`, each semaphore
-- by its count.
pub record OrderedShare : Type 0 where
  pub team_ids : List ℕ
  pub num_used : ℕ
  pub owner : ℕ
  pub cur : ℕ
  pub release : List ℕ

-- `-1` as an `unsigned`: no owner.
abbrev pub no_owner : ℕ
no_owner = word32 - 1

-- `gomp_sem_post (team->ordered_release[id])`
unfoldable pub sem_post : ℕ → OrderedShare → Option OrderedShare
sem_post id ws = do
  count ← get_elem? ws.release id
  release' ← write ws.release id (count + 1)
  some (record ws { release = release' })

-- The code of every function for a team of `nthreads` threads, more than one. An orphaned construct
-- has no team.
unfoldable pub in_team : Option ℕ → OrderedShare → (ℕ → Option OrderedShare) → Option OrderedShare
in_team none ws body = some ws
in_team (some nthreads) ws body = if nthreads == 1 then some ws else body nthreads

-- `index = ordered_cur + ordered_num_used; if (index >= nthreads) index -= nthreads;`
unfoldable pub tail_index : ℕ → OrderedShare → ℕ
tail_index nthreads ws =
    let index = add32 ws.cur ws.num_used in
    if leb nthreads index then sub32 index nthreads else index

-- `next = ordered_cur + 1; if (next == nthreads) next = 0;`
unfoldable pub next_index : ℕ → OrderedShare → ℕ
next_index nthreads ws = let next = add32 ws.cur 1 in if next == nthreads then 0 else next

unfoldable pub gomp_ordered_first : Option ℕ → ℕ → OrderedShare → Option OrderedShare
gomp_ordered_first team tid ws = in_team team ws λ nthreads. do
  ids ← write ws.team_ids (tail_index nthreads ws) tid
  let ws' : OrderedShare = record ws { team_ids = ids; num_used = add32 ws.num_used 1 }
  if ws.num_used == 0 then sem_post tid ws' else some ws'

unfoldable pub gomp_ordered_last : Option ℕ → OrderedShare → Option OrderedShare
gomp_ordered_last team ws = in_team team ws λ nthreads.
    let used = sub32 ws.num_used 1 in
    let passed : OrderedShare = record ws {
      owner = no_owner;
      num_used = used;
      cur = next_index nthreads ws;
    } in
    if ltb 0 used
    then (do next_id ← get_elem? ws.team_ids (next_index nthreads ws); sem_post next_id passed)
    else some (record ws { owner = no_owner; num_used = used })

unfoldable pub gomp_ordered_next : Option ℕ → ℕ → OrderedShare → Option OrderedShare
gomp_ordered_next team tid ws = in_team team ws λ nthreads.
    let disowned : OrderedShare = record ws { owner = no_owner } in
    if ws.num_used == 1 then sem_post tid disowned else (do
      ids ←
          (if ltb ws.num_used nthreads
            then write ws.team_ids (tail_index nthreads ws) tid
            else some ws.team_ids)
      next_id ← get_elem? ids (next_index nthreads ws)
      sem_post next_id (record disowned { team_ids = ids; cur = next_index nthreads ws }))

unfoldable pub gomp_ordered_static_init : Option ℕ → OrderedShare → Option OrderedShare
gomp_ordered_static_init team ws = in_team team ws λ nthreads. sem_post 0 ws

unfoldable pub gomp_ordered_static_next : Option ℕ → ℕ → OrderedShare → Option OrderedShare
gomp_ordered_static_next team tid ws = in_team team ws λ nthreads.
    let id = (if add32 tid 1 == nthreads then 0 else add32 tid 1) in
    (do ids ← write ws.team_ids 0 id; sem_post id (record ws { owner = no_owner; team_ids = ids }))

-- What `gomp_ordered_sync` does: it goes on, or it blocks on the semaphore of the thread.
pub data Sync : Type 0 where
  proceeds : OrderedShare → Sync
  blocks : Sync

-- `none` is a read outside the array of semaphores.
unfoldable pub gomp_ordered_sync : Option ℕ → ℕ → OrderedShare → Option Sync
gomp_ordered_sync none tid ws = some (proceeds ws)
gomp_ordered_sync (some nthreads) tid ws =
    if nthreads == 1
    then some (proceeds ws)
    else if ws.owner == tid
    then some (proceeds ws)
    else (do
      count ← get_elem? ws.release tid
      if count == 0 then some blocks else (do
        release' ← write ws.release tid (count - 1)
        some (proceeds (record ws { release = release'; owner = tid }))))
