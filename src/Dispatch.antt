-- ===== src/Dispatch.antt =====
-- One step of `execMips` in interpret.cc: the fetch, the gates before the decoder, and the dispatch
-- by opcode.
pub mod Gates
pub mod Float
pub mod CacheOp
pub mod Step
pub mod Slot
pub mod Agree
pub mod Depth
pub mod Coherent
pub mod Unusable
pub mod Raises
pub mod SlotFault
