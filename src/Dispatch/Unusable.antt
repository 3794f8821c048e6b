-- ===== src/Dispatch/Unusable.antt =====
-- An instruction of coprocessor 1 where Status.CU1 is clear.
use interp_mips.Prelude.{
  ℕ, ◌^◌, ◌<◌, ◌≡◌, refl, arith, Bool, true, false, not, ◌&&◌, ◌||◌, if◌then◌else◌, ◌==◌, bits,
  is_set, sext32, some,
}
use interp_mips.Cpu.{State, Outcome, ok, cpr0_cause, cpr0_epc, sr_exl, sr_bev}
use interp_mips.Exception.{set_exc_pc, take_exception_cpu, restart_pc}
use interp_mips.Memory.Sparse.{Devices, SparseMem}
use interp_mips.Memory.Access.{Machine}
use interp_mips.Dispatch.Gates.{opcode_of, is_64b_gated, is_mips4, is_cp1, sr_cu1, gates}
use interp_mips.Dispatch.Step.{decode}

-- The exception of a coprocessor 1 that is off, from `s` with EXL clear.
pub record IsUnusable (V : Devices) (s : State) (m : SparseMem V) (o : Outcome (Machine V))
    : Type 0 where
  pub after : State
  pub ends : o ≡ ok (after, m)
  pub epc : after.cpr0_64 cpr0_epc ≡ restart_pc s
  pub bd : is_set (after.cpr0 cpr0_cause) 31 ≡ s.in_delay_slot
  pub exc_code : bits (after.cpr0 cpr0_cause) 2 5 ≡ 11
  pub unit : bits (after.cpr0 cpr0_cause) 28 2 ≡ 1
  pub exl : sr_exl after ≡ true
  pub vector : after.pc ≡ sext32 (if sr_bev s then 0xBFC00380 else 0x80000180)
  pub gpr : after.gpr ≡ s.gpr
  pub cpr1 : after.cpr1 ≡ s.cpr1
  pub fcr1 : after.fcr1 ≡ s.fcr1

-- The instructions of coprocessor 1: COP1, COP1X, LWC1, LDC1, SWC1 and SDC1.
abbrev pub uses_cp1 : ℕ → Bool
uses_cp1 inst =
    let op = opcode_of inst in
    (op == 0x11 || op == 0x13) || (op == 0x31 || op == 0x35) || (op == 0x39 || op == 0x3d)

-- Such an instruction stops at this gate and at no other, unless it is reserved altogether.
gates_cp1 :
    (r5000 : Bool) (inst : ℕ) (s : State)
    → uses_cp1 inst ≡ true
    → (not r5000 && (opcode_of inst == 0x13)) ≡ false
    → sr_cu1 s ≡ false
    → gates r5000 inst s ≡ some (take_exception_cpu s 1)
unfolding gates is_cp1 is_64b_gated is_mips4
gates_cp1 r5000 inst s i r u = ground arith

module _ (V : Devices) (r5000 : Bool) (arithmetic : ℕ → State → Outcome State)
    (coproc1x : ℕ → Machine V → Outcome (Machine V)) (exec : Machine V → Outcome (Machine V)) where
  -- An instruction of coprocessor 1, with Status.CU1 and EXL clear and a 32-bit Cause, COP1X
  -- excepted where the processor is no R5000: the step ends in the general handler that BEV
  -- selects with the code Coprocessor Unusable for unit 1, EPC the pc or that of the branch,
  -- BD telling which, and the general and floating-point registers and the memory as they
  -- were.
  pub decode-IsUnusable :
      (inst : ℕ) (s : State) (m : SparseMem V)
      → uses_cp1 inst ≡ true
      → (not r5000 && (opcode_of inst == 0x13)) ≡ false
      → sr_cu1 s ≡ false
      → sr_exl s ≡ false
      → s.cpr0 cpr0_cause < 2 ^ 32
      → IsUnusable V s m (decode V r5000 arithmetic coproc1x exec inst (s, m))
  unfolding decode take_exception_cpu set_exc_pc
  decode-IsUnusable inst s m i r u h c = record {
    after = take_exception_cpu s 1;
    ends = rw (gates_cp1 r5000 inst s i r u) refl;
    epc = ground arith;
    bd = ground arith;
    exc_code = ground arith;
    unit = ground arith;
    exl = ground arith;
    vector = ground arith;
    gpr = ground arith;
    cpr1 = ground arith;
    fcr1 = ground arith;
  }
