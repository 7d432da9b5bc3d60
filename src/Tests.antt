-- ===== src/Tests.antt =====
-- Runs of the code on small inputs, and the theorems at such inputs.
mod Balance
mod Maps
mod Ull
mod Line
mod Loops
mod Workload
mod Cache
mod Long
mod Signed
mod Barrier
mod Regions
mod Cancels
mod Environment
mod Mutex
