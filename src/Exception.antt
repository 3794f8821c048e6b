-- ===== src/Exception.antt =====
-- The exception machinery of interpret.cc: the saved pc, the vector, the common tail, and the
-- raisers of the single exceptions. What a raiser prints is left out.
pub mod Precise
use interp_mips.Prelude.{ℕ, ◌+◌, ◌%◌, ◌^◌, Bool, true, false, not, ◌&&◌, ◌||◌, if◌then◌else◌}
use interp_mips.Prelude.{
  ◌==◌, u32, sub64, is_set, bits, set_bit, clear_bit, put_bits, sext32, update,
}
use interp_mips.Cpu.{State, cpr0_sr, cpr0_cause, cpr0_epc, sr_exl, sr_erl, sr_bev}

-- The pc that an exception saves: that of the branch, in a delay slot.
abbrev pub restart_pc : State → ℕ
restart_pc s = if s.in_delay_slot then sub64 s.pc 4 else s.pc

unfoldable pub set_exc_pc : State → State
set_exc_pc s = if sr_exl s then s else record s {
  cpr0 = update (update s.cpr0 cpr0_epc (u32 (restart_pc s))) cpr0_cause (
      if s.in_delay_slot then set_bit (s.cpr0 cpr0_cause) 31 else clear_bit (s.cpr0 cpr0_cause) 31);
  cpr0_64 = update s.cpr0_64 cpr0_epc (restart_pc s);
}

unfoldable pub exc_vector : State → Bool → Bool → Bool → ℕ
exc_vector s is_refill exl_was_set is_xtlb =
    (if sr_bev s then 0xBFC00200 else 0x80000000)
    + (if is_refill && not exl_was_set then (if is_xtlb then 0x080 else 0x000) else 0x180)

-- (sr & ~SR_ERL) | SR_EXL.
abbrev pub enter_exl : ℕ → ℕ
enter_exl sr = set_bit (clear_bit sr 2) 1

-- The `ExcCode` field of Cause, bits 6 to 2, and the `CE` field, bits 29 and 28.
abbrev pub set_exc_code : ℕ → ℕ → ℕ
set_exc_code cause exccode = put_bits cause 2 5 exccode

unfoldable pub raise_common : State → ℕ → State
unfolding exc_vector
raise_common s exccode = record s {
  cpr0 =
      update (update s.cpr0 cpr0_cause (set_exc_code (s.cpr0 cpr0_cause) exccode)) cpr0_sr
        (enter_exl (s.cpr0 cpr0_sr));
  ll_armed = false;
  pc = sext32 (exc_vector s false (sr_exl s) false);
}

unfoldable pub raise_adel : State → State
raise_adel s = raise_common (set_exc_pc s) 4

unfoldable pub raise_ades : State → State
raise_ades s = raise_common (set_exc_pc s) 5

unfoldable pub raise_syscall : State → State
raise_syscall s = raise_common (set_exc_pc s) 8

unfoldable pub raise_break : State → State
raise_break s = raise_common (set_exc_pc s) 9

unfoldable pub take_exception_ri : State → State
take_exception_ri s = raise_common (set_exc_pc s) 10

unfoldable pub raise_overflow : State → State
raise_overflow s = raise_common (set_exc_pc s) 12

unfoldable pub raise_trap : State → State
raise_trap s = raise_common (set_exc_pc s) 13

-- Coprocessor unusable, with the number of the coprocessor in Cause.CE.
unfoldable pub take_exception_cpu : State → ℕ → State
unfolding set_exc_pc exc_vector
take_exception_cpu s ce =
    let t = set_exc_pc s in
    record t {
      cpr0 =
          update
            (update t.cpr0 cpr0_cause
              (put_bits (set_exc_code (t.cpr0 cpr0_cause) 11) 28 2 (ce % 4)))
            cpr0_sr (enter_exl (t.cpr0 cpr0_sr));
      ll_armed = false;
      pc = sext32 (exc_vector t false (sr_exl t) false);
    }

-- The index of FCR31 in the compact array `fcr1`.
abbrev pub cp1_cr31 : ℕ
cp1_cr31 = 1

-- Floating-point exception: Unimplemented Operation, bit 17 of FCSR.
unfoldable pub take_exception_fpe : State → State
unfolding set_exc_pc exc_vector
take_exception_fpe s =
    let t = set_exc_pc s in
    record t {
      cpr0 =
          update (update t.cpr0 cpr0_cause (set_exc_code (t.cpr0 cpr0_cause) 15)) cpr0_sr
            (enter_exl (t.cpr0 cpr0_sr));
      fcr1 = update t.fcr1 cp1_cr31 (set_bit (t.fcr1 cp1_cr31) 17);
      ll_armed = false;
      pc = sext32 (exc_vector t false (sr_exl t) false);
    }

-- `raise_int` of the co-simulation: the timer interrupt, at a given pc.
unfoldable pub raise_int : State → ℕ → State
raise_int s epc = record s {
  cpr0 =
      update (update (update s.cpr0 cpr0_epc epc) cpr0_cause (2 ^ 15)) cpr0_sr
        (enter_exl (s.cpr0 cpr0_sr));
  pc = sext32 0xBFC00180;
}

-- 64-bit operations are on in kernel mode, and in the other two by UX and SX.
unfoldable pub in_64b_mode : State → Bool
in_64b_mode s =
    let sr = s.cpr0 cpr0_sr in
    let ksu = bits sr 3 2 in
    let normal = not (sr_exl s) && not (sr_erl s) in
    (ksu == 0 || sr_exl s || sr_erl s)
    || (ksu == 2 && normal && is_set sr 5)
    || (ksu == 1 && normal && is_set sr 6)
