-- ===== src/Sort.antt =====
-- `exch`, `insertion` and `sort` of libgomp/loop.c: an exchange sort of the loads that carries along
-- the map from sorted positions to original ones.
mod Step
mod Loop
pub use Step.{Arrays, Tracks}
unfoldable pub use Step.{exch, insertion_step}
unfoldable pub use Loop.{insertion_row, insertion, init_map, sort}
pub use Loop.{Sorts, sort-Sorts, sort_fault}
