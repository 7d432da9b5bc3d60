-- ===== src/Barrier.antt =====
-- The barrier of Linux (libgomp/config/linux/bar.h and bar.c): `gomp_barrier_wait`, access by access.
pub mod System
pub mod Invariant
pub mod Moves
pub mod Rounds
use libgomp.Prelude.{ℕ, suc, ◌+◌, ◌*◌, ◌/◌, ◌%◌, Bool, ◌==◌, if◌then◌else◌}
use libgomp.Word.{add32, sub32}

pub record Bar : Type 0 where
  pub total : ℕ
  pub generation : ℕ
  pub awaited : ℕ

-- `gomp_barrier_init`
abbrev pub gomp_barrier_init : ℕ → Bar
gomp_barrier_init count = record { total = count; generation = 0; awaited = count }

-- `BAR_INCR`
abbrev pub bar_incr : ℕ
bar_incr = 8

-- `generation & (-BAR_INCR | BAR_CANCELLED)`: without the bits 0 and 1.
unfoldable pub masked : ℕ → ℕ
masked generation = generation / 4 * 4

-- Where a thread stands: outside; in `gomp_barrier_wait_start`, with what it has loaded; the last to
-- arrive; after it has reset `awaited`; in the loop of `gomp_barrier_wait_end`, with its state.
pub data Pc : Type 0 where
  outside : Pc
  loaded : ℕ → Pc
  last storing : Pc
  waiting : ℕ → Pc

-- A thread, with the number of times that it has arrived and that it has left.
pub record Thread : Type 0 where
  pub pc : Pc
  pub arrived : ℕ
  pub left : ℕ

-- `__atomic_add_fetch (&bar->awaited, -1)`
unfoldable pub arrive : Bar → Thread → ℕ → Bar × Thread
arrive b t ret = (
  record b { awaited = sub32 b.awaited 1 },
  record t { pc = if sub32 b.awaited 1 == 0 then last else waiting ret; arrived = suc t.arrived },
)

-- `while (generation == state)`, after each `do_wait`
unfoldable pub check : Bar → Thread → ℕ → Thread
check b t state = if b.generation == state then t else record t { pc = outside; left = suc t.left }

-- The next access, by the place where the thread stands.
unfoldable pub move : Bar → Thread → Pc → Bar × Thread
move b t outside = (b, record t { pc = loaded (masked b.generation) })
move b t (loaded ret) = arrive b t ret
move b t last = (record b { awaited = b.total }, record t { pc = storing })
move b t storing = (
  record b { generation = add32 b.generation bar_incr },
  record t { pc = outside; left = suc t.left },
)
move b t (waiting state) = (b, check b t state)
