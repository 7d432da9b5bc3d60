-- ===== src/Tests/Cache.antt =====
-- The cache of work shares (libgomp/work.c) with four of them.
use libgomp.Prelude.{ℕ, zero, suc, refl, [], ◌∷◌, Option, none, some, arith}
use libgomp.Work.{Cache, alloc_work_share}
use libgomp.Work.Lists.{Holds}
use libgomp.Work.Alloc.{Taken, alloc-Taken}

-- 3, 1 and 2 were freed, 2 first
abbrev links : ℕ → Option ℕ
links zero = none
links (suc zero) = some 2
links (suc (suc zero)) = none
links (suc (suc (suc x))) = some 1

abbrev cache : Cache
cache = record {
  next_free = links;
  list_alloc = none;
  list_free = some 3;
  work_share_chunk = 8;
  blocks = 0 ∷ [];
  count = 8;
}

cache-Holds : Holds cache [] (3 ∷ 1 ∷ 2 ∷ [])
cache-Holds = record {
  takes = refl;
  freed = (refl, (refl, (refl, refl)));
  apart = (((λ e. omega arith), ((λ e. omega arith), tt)), (((λ e. omega arith), tt), (tt, tt)));
}

-- the first of the freed ones stays, the second is taken
alloc-Taken_example : Taken cache [] (3 ∷ 1 ∷ 2 ∷ []) (alloc_work_share cache)
alloc-Taken_example =
    alloc-Taken cache (omega arith) (omega arith) [] (3 ∷ 1 ∷ 2 ∷ []) cache-Holds
      (omega arith, (omega arith, (omega arith, tt)))
