-- ===== src/Cancel/Seen.antt =====
-- What a cancellation point answers after the cancellations of a team (libgomp/parallel.c).
use libgomp.Prelude.{
  ℕ, ◌/◌, ◌%◌, ◌≡◌, refl, ap, eq→==, ◌∙◌, List, [], ◌∷◌, Option, none, some, Bool, true, false, not,
  ◌&&◌, ◌||◌, ◌==◌, arith, if◌then◌else◌, ◌>>=◌, Returns, Returns-bind, Returns-mono, Bool-cases,
  inl, inr,
}
use libgomp.Word.{add32}
use libgomp.Cancel.{
  Cancels, Canceller, has_bit, names_loop, names_taskgroup, gomp_team_barrier_cancelled,
  gomp_team_barrier_cancel, group_cancelled, gomp_cancellation_point, cancel_group, gomp_cancel,
}

-- A call of `GOMP_cancel` by a thread of the team.
pub record Call : Type 0 where
  pub which : ℕ
  pub do_cancel : Bool
  pub taskgroup : Option ℕ

abbrev pub member : Option ℕ → Canceller
member g = record { has_team = true; taskgroup = g }

unfoldable pub run : List Call → Cancels → Option Cancels
run [] team = some team
run (c ∷ calls) team =
    gomp_cancel true c.which c.do_cancel (member c.taskgroup) team >>= λ (ret, team').
    run calls team'

abbrev pub same_group : Option ℕ → Option ℕ → Bool
same_group none h = false
same_group (some g) none = false
same_group (some g) (some h) = g == h

-- Whether the call cancels what a point for `which` in the task group `g` asks for.
abbrev pub concerns : ℕ → Option ℕ → Call → Bool
concerns which g c =
    c.do_cancel
    && (if names_loop which
        then names_loop c.which
        else not (names_loop c.which)
          && (if names_taskgroup c.which
              then names_taskgroup which && same_group g c.taskgroup
              else true))

unfoldable pub one_concerns : ℕ → Option ℕ → List Call → Bool
one_concerns which g [] = false
one_concerns which g (c ∷ calls) = concerns which g c || one_concerns which g calls

cancel-cancelled :
    (team : Cancels) → gomp_team_barrier_cancelled (gomp_team_barrier_cancel team) ≡ true
unfolding gomp_team_barrier_cancelled gomp_team_barrier_cancel has_bit add32
cancel-cancelled team = ground arith

shared :
    (b : Bool) (team : Cancels)
    → let team' = (if b then team else record team { generation = add32 team.generation 4 }) in
      (team'.work_share_cancelled ≡ team.work_share_cancelled) × (team'.cancelled ≡ team.cancelled)
shared true team = (refl, refl)
shared false team = (refl, refl)

cancel-shared :
    (team : Cancels)
    → ((gomp_team_barrier_cancel team).work_share_cancelled ≡ team.work_share_cancelled)
      × ((gomp_team_barrier_cancel team).cancelled ≡ team.cancelled)
unfolding gomp_team_barrier_cancel
cancel-shared team = shared (has_bit team.generation 4) team

-- A point's answer from what it reads: the share's flag, that of its group and that of the barrier.
abbrev pub answer : Bool → Bool → Bool → Bool → Bool → Bool
answer loop grouped share group bar = if loop then share else if grouped && group then true else bar

answer_loop :
    (loop grouped share group bar : Bool)
    → answer loop grouped true group bar
      ≡ (if loop then true else false) || answer loop grouped share group bar
answer_loop true grouped share group bar = refl
answer_loop false grouped share group bar = refl

answer_group :
    (loop grouped share group same bar : Bool)
    → answer loop grouped share (if same then true else group) bar
      ≡ (if loop then false else grouped && same) || answer loop grouped share group bar
answer_group true grouped share group same bar = refl
answer_group false false share group same bar = refl
answer_group false true share group true bar = refl
answer_group false true share group false bar = refl

answer_team :
    (loop grouped share group bar : Bool)
    → answer loop grouped share group true
      ≡ (if loop then false else true) || answer loop grouped share group bar
answer_team true grouped share group bar = refl
answer_team false false share group bar = refl
answer_team false true share true bar = refl
answer_team false true share false bar = refl

cancel-groups :
    (team : Cancels) (g : Option ℕ)
    → group_cancelled (gomp_team_barrier_cancel team) g ≡ group_cancelled team g
cancel-groups team none = refl
cancel-groups team (some g) = let (shares, groups) = cancel-shared team in ap (λ c. c g) groups

answer_again :
    (loop grouped share group same bar : Bool)
    → (same ≡ true → group ≡ true)
    → answer loop grouped share group bar
      ≡ (if loop then false else grouped && same) || answer loop grouped share group bar
answer_again loop grouped share group false bar k = answer_group loop grouped share group false bar
answer_again loop grouped share group true bar k =
    rw (k refl) (answer_group loop grouped share true true bar)

-- What a point for `w` in the group `g` answers before and after a call that cancels.
abbrev Sees : ℕ → Option ℕ → Call → Cancels → Type 0
Sees w g c team =
    Returns (gomp_cancel true c.which c.do_cancel (member c.taskgroup) team) (λ (ret, team').
      gomp_cancellation_point true w (member g) team'
      ≡ concerns w g c || gomp_cancellation_point true w (member g) team)

abbrev cancelling : ℕ → Option ℕ → Call
cancelling which h = record { which = which; do_cancel = true; taskgroup = h }

loop-Sees :
    (w : ℕ) (g : Option ℕ) (which : ℕ) (h : Option ℕ) (team : Cancels)
    → names_loop which ≡ true
    → Sees w g (cancelling which h) team
unfolding gomp_cancel gomp_cancellation_point gomp_team_barrier_cancelled
loop-Sees w g which h team e = rw (e) (
    answer_loop (names_loop w) (names_taskgroup w) (not (team.work_share_cancelled == 0))
      (group_cancelled team g) (gomp_team_barrier_cancelled team))

team-Sees :
    (w : ℕ) (g : Option ℕ) (which : ℕ) (h : Option ℕ) (team : Cancels)
    → names_loop which ≡ false
    → names_taskgroup which ≡ false
    → Sees w g (cancelling which h) team
unfolding gomp_cancel gomp_cancellation_point has_bit gomp_team_barrier_cancelled
team-Sees w g which h team e f =
    let marked = record team { team_cancelled = 1 } in
    let (shares, groups) = cancel-shared marked in
    rw (e, f, shares, cancel-groups marked g, cancel-cancelled marked)
      (answer_team (names_loop w) (names_taskgroup w) (not (team.work_share_cancelled == 0))
        (group_cancelled team g) (gomp_team_barrier_cancelled team))

no_group : (g : Option ℕ) → same_group g none ≡ false
no_group none = refl
no_group (some g) = refl

again_cancelled :
    (g : Option ℕ) (k : ℕ) (team : Cancels)
    → team.cancelled k ≡ true
    → same_group g (some k) ≡ true
    → group_cancelled team g ≡ true
again_cancelled none k team c s = absurd (cc s)
again_cancelled (some j) k team c s = let e : j ≡ k = ground arith in ap team.cancelled e ∙ c

newly_cancelled :
    (g : Option ℕ) (k : ℕ) (team : Cancels)
    → group_cancelled (cancel_group k team) g
      ≡ (if same_group g (some k) then true else group_cancelled team g)
newly_cancelled none k team = refl
newly_cancelled (some j) k team = refl

group-Sees :
    (w : ℕ) (g : Option ℕ) (which : ℕ) (h : Option ℕ) (team : Cancels)
    → names_loop which ≡ false
    → names_taskgroup which ≡ true
    → Sees w g (cancelling which h) team
unfolding gomp_cancel gomp_cancellation_point gomp_team_barrier_cancelled
group-Sees w g which none team e f =
    rw (e, f, no_group g)
      (answer_group (names_loop w) (names_taskgroup w) (not (team.work_share_cancelled == 0))
        (group_cancelled team g) false (gomp_team_barrier_cancelled team))
group-Sees w g which (some k) team e f = elim (Bool-cases (team.cancelled k)) [
  | inl c ↦
      rw (e, f, c)
        (answer_again (names_loop w) (names_taskgroup w) (not (team.work_share_cancelled == 0))
          (group_cancelled team g) (same_group g (some k)) (gomp_team_barrier_cancelled team)
          (again_cancelled g k team c))
  | inr c ↦
      rw (e, f, c, newly_cancelled g k team)
        (answer_group (names_loop w) (names_taskgroup w) (not (team.work_share_cancelled == 0))
          (group_cancelled team g) (same_group g (some k)) (gomp_team_barrier_cancelled team))
]

call_cases :
    (w : ℕ) (g : Option ℕ) (which : ℕ) (do_cancel : Bool) (h : Option ℕ) (team : Cancels)
    → Sees w g (record { which = which; do_cancel = do_cancel; taskgroup = h }) team
unfolding gomp_cancel
call_cases w g which false h team = refl
call_cases w g which true h team = elim (Bool-cases (names_loop which)) [
  | inl e ↦ loop-Sees w g which h team e
  | inr e ↦ elim (Bool-cases (names_taskgroup which)) [
    | inl f ↦ group-Sees w g which h team e f
    | inr f ↦ team-Sees w g which h team e f
  ]
]

or_swap : (a b c : Bool) → a || (b || c) ≡ (b || a) || c
or_swap true true c = refl
or_swap true false c = refl
or_swap false true c = refl
or_swap false false c = refl

run_lem :
    (w : ℕ) (g : Option ℕ) (calls : List Call) (team : Cancels)
    → Returns (run calls team) (λ team'.
      gomp_cancellation_point true w (member g) team'
      ≡ one_concerns w g calls || gomp_cancellation_point true w (member g) team)
unfolding run one_concerns
run_lem w g [] team = refl
run_lem w g (c ∷ calls) team =
    Returns-bind
      (λ (ret, team').
        gomp_cancellation_point true w (member g) team'
        ≡ concerns w g c || gomp_cancellation_point true w (member g) team)
      (λ team'.
        gomp_cancellation_point true w (member g) team'
        ≡ one_concerns w g (c ∷ calls) || gomp_cancellation_point true w (member g) team)
      (gomp_cancel true c.which c.do_cancel (member c.taskgroup) team)
      (λ (ret, team'). run calls team') (call_cases w g c.which c.do_cancel c.taskgroup team)
      (λ (ret, team') e.
        Returns-mono
          (λ t.
            gomp_cancellation_point true w (member g) t
            ≡ one_concerns w g calls || gomp_cancellation_point true w (member g) team')
          (λ t.
            gomp_cancellation_point true w (member g) t
            ≡ one_concerns w g (c ∷ calls) || gomp_cancellation_point true w (member g) team)
          (run calls team')
          (λ t f.
            f
            ∙ ap (λ b. one_concerns w g calls || b) e
            ∙ or_swap (one_concerns w g calls) (concerns w g c)
                (gomp_cancellation_point true w (member g) team))
          (run_lem w g calls team'))

-- A team without a cancellation, whatever else its barrier's generation counts.
pub record IsUncancelled (team : Cancels) : Type 0 where
  pub no_share : team.work_share_cancelled ≡ 0
  pub no_barrier : team.generation / 4 % 2 ≡ 0
  pub no_group : (g : ℕ) → team.cancelled g ≡ false

or_false : (b : Bool) → b || false ≡ b
or_false true = refl
or_false false = refl

none_answered : (loop grouped : Bool) → answer loop grouped false false false ≡ false
none_answered true grouped = refl
none_answered false true = refl
none_answered false false = refl

no_groups : (team : Cancels) (g : Option ℕ) → IsUncancelled team → group_cancelled team g ≡ false
no_groups team none u = refl
no_groups team (some g) u = u.no_group g

point_before :
    (w : ℕ) (g : Option ℕ) (team : Cancels)
    → IsUncancelled team
    → gomp_cancellation_point true w (member g) team ≡ false
unfolding gomp_cancellation_point gomp_team_barrier_cancelled has_bit
point_before w g team u =
    rw
      (
        eq→== team.work_share_cancelled 0 u.no_share,
        no_groups team g u,
        eq→== (team.generation / 4 % 2) 0 u.no_barrier,
      )
      (none_answered (names_loop w) (names_taskgroup w))

-- On a team with no cancellation, whatever else the generation of its barrier counts, let its
-- threads call `GOMP_cancel` in any order, for any constructs and task groups, with a true or a
-- false condition, between two barriers and with cancellation enabled. All calls return, and
-- afterwards `GOMP_cancellation_point`, called by a thread of the team in a task group or in none,
-- returns true exactly if one of the calls had a true condition and concerned it: for a loop or
-- sections, a call for a loop or sections; for a task group, a call for a task group by a thread in
-- the same one, or a call for the parallel region; for the region, a call for the region.
pub point_after_calls :
    (which : ℕ) (g : Option ℕ) (calls : List Call) (team : Cancels)
    → IsUncancelled team
    → Returns
        (run calls team)
        (λ team'. gomp_cancellation_point true which (member g) team' ≡ one_concerns which g calls)
point_after_calls which g calls team u =
    Returns-mono
      (λ t.
        gomp_cancellation_point true which (member g) t
        ≡ one_concerns which g calls || gomp_cancellation_point true which (member g) team)
      (λ t. gomp_cancellation_point true which (member g) t ≡ one_concerns which g calls)
      (run calls team)
      (λ t e.
        e
        ∙ ap (λ b. one_concerns which g calls || b) (point_before which g team u)
        ∙ or_false (one_concerns which g calls))
      (run_lem which g calls team)
