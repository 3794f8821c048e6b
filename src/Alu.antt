-- ===== src/Alu.antt =====
-- The integer instructions of `execMips` in interpret.cc: those of opcode 0 but the jumps, and
-- those with an immediate operand.
pub mod Write
pub mod HiLo
pub mod Special
pub mod Immediate
pub mod Overflow
pub mod Divide
pub mod Signs
