-- ===== src/Tests/Barrier.antt =====
-- Two threads at the barrier of libgomp/config/linux.
use libgomp.Prelude.{ℕ, ◌≤◌, ◌<◌, arith, ◌==◌, if◌then◌else◌}
use libgomp.Word.{sub32, add32}
use libgomp.Barrier.{masked, arrive, check, move}
use libgomp.Barrier.System.{System, init, Reach, start, later, run}
use libgomp.Barrier.Rounds.{left-le-arrived, Stuck, not_all-Stuck}

program : Unit {0}
unfolding masked arrive check move sub32 add32
program = tt

abbrev step : ℕ → System → System
step i s = record {
  bar = (move s.bar (s.thread i) (s.thread i).pc).0;
  thread = λ j. if i == j then (move s.bar (s.thread i) (s.thread i).pc).1 else s.thread j;
}

-- thread 0 arrives and waits, thread 1 arrives last, resets `awaited` and stores the generation
abbrev arrived_both : System
arrived_both = step 1 (step 1 (step 1 (step 1 (step 0 (step 0 (init 2))))))

arrived_both-Reach : Reach 2 arrived_both
arrived_both-Reach =
    later
      (later
        (later
          (later (later (later start (run 0 (omega arith))) (run 0 (omega arith)))
            (run 1 (omega arith)))
          (run 1 (omega arith)))
        (run 1 (omega arith)))
      (run 1 (omega arith))

left-le-arrived_example : 1 ≤ (arrived_both.thread 0).arrived
unfolding program
left-le-arrived_example =
    left-le-arrived (omega arith) (omega arith) arrived_both-Reach 1 0 (omega arith) (omega arith)

not_all-Stuck_example : ¬ ((i : ℕ) → i < 2 → Stuck arrived_both i)
not_all-Stuck_example = not_all-Stuck (omega arith) (omega arith) arrived_both-Reach
