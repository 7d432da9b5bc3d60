-- ===== src/Barrier/System.antt =====
-- The threads of a team at one barrier, interleaved in any order.
use libgomp.Prelude.{ℕ, ◌<◌, update}
use libgomp.Barrier.{Bar, gomp_barrier_init, outside, Thread, move}

pub record System : Type 0 where
  pub bar : Bar
  pub thread : ℕ → Thread

pub data Step (n : ℕ) (s : System) : System → Type 0 where
  run :
      (i : ℕ)
      → i < n
      → Step n s (record {
        bar = (move s.bar (s.thread i) (s.thread i).pc).0;
        thread = update s.thread i (move s.bar (s.thread i) (s.thread i).pc).1;
      })

abbrev pub init : ℕ → System
init n = record {
  bar = gomp_barrier_init n;
  thread = λ _. record { pc = outside; arrived = 0; left = 0 };
}

pub data Reach (n : ℕ) : System → Type 0 where
  start : Reach n (init n)
  later : {s t : System} → Reach n s → Step n s t → Reach n t
