-- ===== src/Mutex/System.antt =====
-- Any number of threads at one mutex, interleaved in any order.
use libgomp.Prelude.{ℕ, ◌≡◌, ◌≢◌, Bool, update}
use libgomp.Mutex.{Word, unlocked, Pc, idle, second, asleep, waking, move}

pub record System : Type 0 where
  pub word : Word
  pub pc : ℕ → Pc

-- `futex_wake (mutex, 1)` wakes one sleeper, if there is one; `futex_wait` may also return by itself.
pub data Step (s : System) : System → Type 0 where
  run :
      (i : ℕ) (timeout : Bool)
      → Step s (record {
        word = (move timeout s.word (s.pc i)).0;
        pc = update s.pc i (move timeout s.word (s.pc i)).1;
      })
  interrupt : (i : ℕ) → s.pc i ≡ asleep → Step s (record s { pc = update s.pc i second })
  wake_one :
      (i j : ℕ)
      → s.pc i ≡ waking
      → s.pc j ≡ asleep
      → Step s (record s { pc = update (update s.pc j second) i idle })
  wake_none :
      (i : ℕ)
      → s.pc i ≡ waking
      → ((j : ℕ) → s.pc j ≢ asleep)
      → Step s (record s { pc = update s.pc i idle })

-- After `gomp_mutex_init`.
abbrev pub init : System
init = record { word = unlocked; pc = λ _. idle }

pub data Reach : System → Type 0 where
  start : Reach init
  later : {s t : System} → Reach s → Step s t → Reach t
