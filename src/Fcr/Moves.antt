-- ===== src/Fcr/Moves.antt =====
-- The moves between a general and a floating-point register, in both register models.
use interp_mips.Prelude.{ℕ, ◌-◌, ◌%◌, ◌^◌, ◌<◌, ◌≡◌, ◌≢◌, arith, u32, sext32}
use interp_mips.Cpu.{State}
use interp_mips.Alu.Write.{set_gpr}
use interp_mips.Fcr.{field_fs, field_rt, fpr_hw, mtc1, mfc1}

-- `t` is where `mtc1` leads from `s`: the single register fs holds the low word of rt, `mfc1`
-- reads it back, and the other single registers are as before.
pub record IsMoved (inst : ℕ) (s t : State) : Type 0 where
  pub single : fpr_hw t (field_fs inst) ≡ u32 (s.gpr (field_rt inst))
  pub back : (mfc1 inst t).gpr (field_rt inst) ≡ sext32 (s.gpr (field_rt inst))
  pub others : (r : ℕ) → r ≢ field_fs inst → fpr_hw t r ≡ fpr_hw s r

-- Where the floating-point registers hold 64 bits, MTC1 leaves the low word of its general
-- register in one single register, MFC1 reads it back sign-extended, and every other single
-- register is as before, in both register models, where for FR clear an odd single is the high
-- half of its even neighbour.
pub mtc1-IsMoved :
    (inst : ℕ) (s : State) → ((r : ℕ) → s.cpr1 r < 2 ^ 64) → IsMoved inst s (mtc1 inst s)
unfolding mtc1 mfc1 set_gpr
mtc1-IsMoved inst s h = record {
  single = ground (arith, h (field_fs inst), h (field_fs inst - field_fs inst % 2));
  back = ground (arith, h (field_fs inst), h (field_fs inst - field_fs inst % 2));
  others = λ r n. ground (arith, h (field_fs inst), h (field_fs inst - field_fs inst % 2));
}
