-- ===== src/Alu/Write.antt =====
-- The writes of a result, each with the step of the pc.
use interp_mips.Prelude.{ℕ, update}
use interp_mips.Cpu.{State, next_pc}

-- `s->gpr[rd] = v; s->pc += 4`.
unfoldable pub set_gpr : State → ℕ → ℕ → State
set_gpr s rd v = record s { gpr = update s.gpr rd v; pc = next_pc s.pc }

unfoldable pub set_hi_lo : State → ℕ → ℕ → State
set_hi_lo s hi lo = record s { hi = hi; lo = lo; pc = next_pc s.pc }

abbrev pub skip : State → State
skip s = record s { pc = next_pc s.pc }
