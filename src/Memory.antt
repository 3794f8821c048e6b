-- ===== src/Memory.antt =====
-- The guest memory and the instructions that reach it: `sparse_mem` and the loads and stores of
-- interpret.cc.
pub mod Sparse
pub mod Access
pub mod Merge
pub mod Unaligned
pub mod Joined
pub mod RoundTrip
pub mod Pairs
pub mod Misaligned
