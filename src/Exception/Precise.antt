-- ===== src/Exception/Precise.antt =====
-- The general exception entry of interpret.cc, with Status.EXL clear and nested.
use interp_mips.Prelude.{
  ℕ, ◌^◌, ◌<◌, ◌≡◌, arith, true, false, if◌then◌else◌, u32, bits, is_set, sext32,
}
use interp_mips.Cpu.{State, cpr0_sr, cpr0_cause, cpr0_epc, sr_ie, sr_exl, sr_erl, sr_bev}
use interp_mips.Exception.{set_exc_pc, raise_common, restart_pc}

-- `t` is where the general exception `code` leads from `s`, with EXL clear in `s`.
pub record IsRaised (code : ℕ) (s t : State) : Type 0 where
  pub epc_64 : t.cpr0_64 cpr0_epc ≡ restart_pc s
  pub epc_32 : t.cpr0 cpr0_epc ≡ u32 (restart_pc s)
  pub bd : is_set (t.cpr0 cpr0_cause) 31 ≡ s.in_delay_slot
  pub exc_code : bits (t.cpr0 cpr0_cause) 2 5 ≡ code
  pub pending : bits (t.cpr0 cpr0_cause) 8 8 ≡ bits (s.cpr0 cpr0_cause) 8 8
  pub exl : sr_exl t ≡ true
  pub erl : sr_erl t ≡ false
  pub ie : sr_ie t ≡ sr_ie s
  pub sr_rest : bits (t.cpr0 cpr0_sr) 3 29 ≡ bits (s.cpr0 cpr0_sr) 3 29
  pub vector : t.pc ≡ sext32 (if sr_bev s then 0xBFC00380 else 0x80000180)
  pub unlinked : t.ll_armed ≡ false
  pub gpr : t.gpr ≡ s.gpr
  pub tlb : t.tlb ≡ s.tlb

-- A general exception with EXL clear, a code below 32 and a 32-bit Cause: EPC in both views is
-- the pc, or that of the branch in a delay slot, BD tells which, Cause holds the code and keeps
-- its pending bits, EXL is set and ERL cleared with the rest of Status kept, the pc is the
-- general vector that BEV selects, the load-link is broken, and the registers and the TLB are
-- kept.
pub raise_common-IsRaised :
    (s : State) (code : ℕ)
    → code < 32
    → s.cpr0 cpr0_cause < 2 ^ 32
    → sr_exl s ≡ false
    → IsRaised code s (raise_common (set_exc_pc s) code)
unfolding raise_common set_exc_pc
raise_common-IsRaised s code c w h = record {
  epc_64 = ground arith;
  epc_32 = ground arith;
  bd = ground arith;
  exc_code = ground arith;
  pending = ground arith;
  exl = ground arith;
  erl = ground arith;
  ie = ground arith;
  sr_rest = ground arith;
  vector = ground arith;
  unlinked = ground arith;
  gpr = ground arith;
  tlb = ground arith;
}

-- A nested exception: the saved pc and Cause.BD are those of the first.
pub record IsNested (code : ℕ) (s t : State) : Type 0 where
  pub epc_64 : t.cpr0_64 ≡ s.cpr0_64
  pub epc_32 : t.cpr0 cpr0_epc ≡ s.cpr0 cpr0_epc
  pub bd : is_set (t.cpr0 cpr0_cause) 31 ≡ is_set (s.cpr0 cpr0_cause) 31
  pub exc_code : bits (t.cpr0 cpr0_cause) 2 5 ≡ code
  pub exl : sr_exl t ≡ true
  pub vector : t.pc ≡ sext32 (if sr_bev s then 0xBFC00380 else 0x80000180)

-- A general exception with EXL set and a code below 32 keeps EPC in both views and Cause.BD,
-- replaces the code, leaves EXL set and goes to the general vector that BEV selects.
pub raise_common-IsNested :
    (s : State) (code : ℕ)
    → code < 32
    → sr_exl s ≡ true
    → IsNested code s (raise_common (set_exc_pc s) code)
unfolding raise_common set_exc_pc
raise_common-IsNested s code c h = record {
  epc_64 = ground arith;
  epc_32 = ground arith;
  bd = ground arith;
  exc_code = ground arith;
  exl = ground arith;
  vector = ground arith;
}
