-- ===== src/Cancel.antt =====
-- Cancellation of constructs (libgomp/parallel.c and config/linux/bar.c), between two barriers of a
-- team.
pub mod Seen
use libgomp.Prelude.{
  ℕ, ◌+◌, ◌/◌, ◌%◌, Option, none, some, Bool, true, false, not, ◌&&◌, ◌||◌, ◌==◌, if◌then◌else◌,
}
use libgomp.Word.{add32}

-- The flags of a team, the generation of its barrier, and the `cancelled` of its task groups.
pub record Cancels : Type 0 where
  pub work_share_cancelled : ℕ
  pub team_cancelled : ℕ
  pub generation : ℕ
  pub cancelled : ℕ → Bool

-- Whether the thread is in the team, and the task group of its task.
pub record Canceller : Type 0 where
  pub has_team : Bool
  pub taskgroup : Option ℕ

-- `word & bit`, for a power of two
unfoldable pub has_bit : ℕ → ℕ → Bool
has_bit word bit = not (word / bit % 2 == 0)

-- `which & (GOMP_CANCEL_LOOP | GOMP_CANCEL_SECTIONS)`
abbrev pub names_loop : ℕ → Bool
names_loop which = has_bit which 2 || has_bit which 4

-- `which & GOMP_CANCEL_TASKGROUP`
abbrev pub names_taskgroup : ℕ → Bool
names_taskgroup which = has_bit which 8

abbrev pub bar_cancelled : ℕ
bar_cancelled = 4

unfoldable pub gomp_team_barrier_cancelled : Cancels → Bool
gomp_team_barrier_cancelled team = has_bit team.generation bar_cancelled

unfoldable pub gomp_team_barrier_cancel : Cancels → Cancels
gomp_team_barrier_cancel team =
    if has_bit team.generation bar_cancelled
    then team
    else record team { generation = add32 team.generation bar_cancelled }

abbrev pub group_cancelled : Cancels → Option ℕ → Bool
group_cancelled team none = false
group_cancelled team (some g) = team.cancelled g

unfoldable pub gomp_cancellation_point : Bool → ℕ → Canceller → Cancels → Bool
gomp_cancellation_point cancel_var which thr team =
    if not cancel_var
    then false
    else if names_loop which
    then thr.has_team && not (team.work_share_cancelled == 0)
    else if names_taskgroup which && group_cancelled team thr.taskgroup
    then true
    else thr.has_team && gomp_team_barrier_cancelled team

abbrev pub cancel_group : ℕ → Cancels → Cancels
cancel_group g team = record team { cancelled = λ k. if k == g then true else team.cancelled k }

-- `none` is an access by a null pointer: to the team of a thread that is in none.
unfoldable pub gomp_cancel : Bool → ℕ → Bool → Canceller → Cancels → Option (Bool × Cancels)
gomp_cancel cancel_var which do_cancel thr team =
    if not cancel_var
    then some (false, team)
    else if not do_cancel
    then some (gomp_cancellation_point cancel_var which thr team, team)
    else if names_loop which
    then some (true, if thr.has_team then record team { work_share_cancelled = 1 } else team)
    else if names_taskgroup which
    then (elim thr.taskgroup [
      | none ↦ some (true, team)
      | some g ↦
          if team.cancelled g
          then some (true, team)
          else if thr.has_team
          then some (true, cancel_group g team)
          else none
    ])
    else if thr.has_team
    then some (true, gomp_team_barrier_cancel (record team { team_cancelled = 1 }))
    else none
