-- ===== src/Tests/Line.antt =====
-- Three threads in the line of libgomp/ordered.c.
use libgomp.Prelude.{
  ℕ, zero, suc, ◌<◌, ◌≡◌, refl, [], ◌∷◌, ◌++◌, true, false, some, arith, ◌!◌, Returns,
}
use libgomp.Ordered.{OrderedShare, gomp_ordered_next, gomp_ordered_sync}
use libgomp.Ordered.Refine.{offered, Refines}
use libgomp.Ordered.Pass.{next-Refines}
use libgomp.Ordered.Synced.{Synced, sync-Synced}

-- thread 2 holds the region, thread 0 is behind it
abbrev busy : OrderedShare
busy = record {
  team_ids = 0 ∷ 7 ∷ 2 ∷ [];
  num_used = 2;
  owner = 2;
  cur = 2;
  release = 0 ∷ 0 ∷ 0 ∷ [];
}

busy-Refines : Refines 3 busy (2 ∷ 0 ∷ []) true
busy-Refines = record {
  is_ring = record {
    several = omega arith;
    small = omega arith;
    cells = refl;
    cur-lt = omega arith;
    used_le = omega arith;
  };
  line = refl;
  members = (omega arith, (omega arith, tt));
  owns = refl;
  counts = refl;
  posts = none_posted;
}
  where
    none_posted : (t : ℕ) → t < 3 → busy.release ! t ≡ offered (2 ∷ 0 ∷ []) true t
    none_posted zero h = refl
    none_posted (suc zero) h = refl
    none_posted (suc (suc zero)) h = refl
    none_posted (suc (suc (suc t))) h = absurd (omega arith)

next-Refines_example :
    Returns (gomp_ordered_next (some 3) 2 busy) (λ ws'. Refines 3 ws' ((0 ∷ []) ++ 2 ∷ []) false)
next-Refines_example = next-Refines 3 busy 2 (0 ∷ []) busy-Refines

sync-Synced_example : Returns (gomp_ordered_sync (some 3) 0 busy) (Synced 3 0 2 (0 ∷ []))
sync-Synced_example = sync-Synced 3 busy 0 2 (0 ∷ []) true busy-Refines (omega arith)
