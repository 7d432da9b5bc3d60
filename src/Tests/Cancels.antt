-- ===== src/Tests/Cancels.antt =====
-- Cancellation (libgomp/parallel.c) by three threads of a team, two of them in one task group.
use libgomp.Prelude.{
  ℕ, ◌≡◌, refl, List, [], ◌∷◌, Option, some, none, Bool, true, false, Returns, ◌>>=◌,
}
use libgomp.Word.{add32}
use libgomp.Cancel.{
  Cancels, has_bit, gomp_team_barrier_cancelled, gomp_team_barrier_cancel, gomp_cancellation_point,
  gomp_cancel,
}
use libgomp.Cancel.Seen.{Call, member, run, one_concerns, IsUncancelled, point_after_calls}

-- on the third round of the barrier, with a task pending
abbrev uncancelled : Cancels
uncancelled = record {
  work_share_cancelled = 0;
  team_cancelled = 0;
  generation = 17;
  cancelled = λ g. false;
}

uncancelled-IsUncancelled : IsUncancelled uncancelled
uncancelled-IsUncancelled = record { no_share = refl; no_barrier = refl; no_group = λ g. refl }

program : Unit {0}
unfolding has_bit gomp_team_barrier_cancelled gomp_team_barrier_cancel gomp_cancellation_point
    gomp_cancel run one_concerns add32
program = tt

-- `GOMP_CANCEL_PARALLEL` with a false condition, `GOMP_CANCEL_LOOP`, `GOMP_CANCEL_TASKGROUP`
abbrev cancels : List Call
cancels =
    record { which = 1; do_cancel = false; taskgroup = none }
    ∷ record { which = 2; do_cancel = true; taskgroup = none }
    ∷ record { which = 8; do_cancel = true; taskgroup = some 5 }
    ∷ []

point_answers : ℕ → Option ℕ → Option Bool
point_answers which g =
    run cancels uncancelled >>= λ team. some (gomp_cancellation_point true which (member g) team)

sections_point : point_answers 4 none ≡ some true
unfolding program point_answers
sections_point = refl

other_group : point_answers 8 (some 6) ≡ some false
unfolding program point_answers
other_group = refl

region_point : point_answers 1 (some 5) ≡ some false
unfolding program point_answers
region_point = refl

-- a thread in no team cannot cancel a region
no_team : gomp_cancel true 1 true (record { has_team = false; taskgroup = none }) uncancelled ≡ none
unfolding program
no_team = refl

point_after_calls_example : Returns (run cancels uncancelled) (λ team.
    gomp_cancellation_point true 8 (member (some 5)) team ≡ one_concerns 8 (some 5) cancels)
point_after_calls_example =
    point_after_calls 8 (some 5) cancels uncancelled uncancelled-IsUncancelled
