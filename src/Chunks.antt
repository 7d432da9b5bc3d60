-- ===== src/Chunks.antt =====
-- The chunks of the BinLPT scheduler (libgomp/loop.c): `compute_cummulativesum`,
-- `compute_chunksizes` and `compute_chunks`.
mod Sums
mod Sizes
mod Weights
pub use Sums.*
pub use Sizes.*
pub use Weights.*
unfoldable pub use Sums.{cummulativesum_step, compute_cummulativesum}
unfoldable pub use Sizes.{divide, chunk_end, chunksizes_loop, compute_chunksizes}
unfoldable pub use Weights.{add_task, fill_chunk, compute_chunks}
