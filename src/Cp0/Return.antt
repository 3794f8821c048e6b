-- ===== src/Cp0/Return.antt =====
-- ERET after an exception entry, both of interpret.cc.
use interp_mips.Prelude.{ℕ, ◌^◌, ◌<◌, ◌≡◌, refl, arith, false}
use interp_mips.Cpu.{State, ok, cpr0_sr, sr_exl, sr_erl, next_pc}
use interp_mips.Exception.{set_exc_pc, raise_common, restart_pc}
use interp_mips.Cp0.{exec_coproc0, eret}

-- The encoding of ERET.
abbrev pub eret_inst : ℕ
eret_inst = 0x42000018

-- `u` resumes `s`.
pub record IsResumed (s u : State) : Type 0 where
  pub pc : u.pc ≡ restart_pc s
  pub sr : u.cpr0 cpr0_sr ≡ s.cpr0 cpr0_sr
  pub unlinked : u.ll_armed ≡ false
  pub gpr : u.gpr ≡ s.gpr

abbrev returned : State → State
returned t = let r = eret t in record r { pc = next_pc r.pc }

exec_eret : (t : State) → exec_coproc0 eret_inst t ≡ ok (returned t)
unfolding exec_coproc0
exec_eret t = refl

returned-IsResumed :
    (s : State) (code : ℕ)
    → s.pc < 2 ^ 64
    → sr_exl s ≡ false
    → sr_erl s ≡ false
    → IsResumed s (returned (raise_common (set_exc_pc s) code))
unfolding eret raise_common set_exc_pc
returned-IsResumed s code w h l = record {
  pc = ground arith;
  sr = ground arith;
  unlinked = ground arith;
  gpr = ground arith;
}

-- A general exception taken with EXL and ERL clear at a 64-bit pc, and then an ERET, come back
-- to the instruction that raised it or, from a delay slot, to its branch, with Status as it
-- was, the general registers kept and the load-link broken.
pub eret-raise_common :
    (s : State) (code : ℕ)
    → s.pc < 2 ^ 64
    → sr_exl s ≡ false
    → sr_erl s ≡ false
    → (u : State) × (exec_coproc0 eret_inst (raise_common (set_exc_pc s) code) ≡ ok u)
      × IsResumed s u
eret-raise_common s code w h l = (_, exec_eret _, returned-IsResumed s code w h l)
