-- ===== src/Single.antt =====
-- The SINGLE construct without COPYPRIVATE (libgomp/single.c), with the build that has atomic builtins.
pub mod First
use libgomp.Prelude.{ℕ, Bool, true, Option, none, some, ◌==◌, if◌then◌else◌}
use libgomp.Word.{add64}

-- The result, `team->single_count`, and the thread's own `single_count`.
pub record SingleStart : Type 0 where
  pub ret : Bool
  pub team_count : Option ℕ
  pub thread_count : ℕ

-- `thr->ts.single_count++`, and the compare-and-swap of `team->single_count`. Without a team the
-- construct is executed.
unfoldable pub gomp_single_start : Option ℕ → ℕ → SingleStart
gomp_single_start none single_count = record {
  ret = true;
  team_count = none;
  thread_count = single_count;
}
gomp_single_start (some count) single_count = record {
  ret = count == single_count;
  team_count = some (if count == single_count then add64 single_count 1 else count);
  thread_count = add64 single_count 1;
}
