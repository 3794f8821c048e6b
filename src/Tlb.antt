-- ===== src/Tlb.antt =====
-- The translation look-aside buffer of interpret.cc: its faults, the match of one entry, the
-- translation with the micro-TLB in front of the 48 entries, and the TLB instructions.
pub mod Fault
pub mod Entry
pub mod Translate
pub mod Kept
pub mod Ops
pub mod Page
pub mod Coherence
pub mod Laws
pub mod Refill
