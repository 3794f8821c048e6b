-- ===== src/Tlb/Fault.antt =====
-- `cp0_write_mask`, `tlb_set_fault_state` and `raise_tlb`. The probes that print are left out.
use interp_mips.Prelude.{
  ℕ, ◌+◌, ◌-◌, ◌%◌, ◌^◌, Bool, true, not, ◌&&◌, if◌then◌else◌, ◌==◌, u32, bits, ◌<<<◌, sext32,
  update,
}
use interp_mips.Cpu.{
  State, cpr0_sr, cpr0_cause, cpr0_entrylo0, cpr0_entrylo1, cpr0_context, cpr0_pagemask,
  cpr0_badvaddr, cpr0_entryhi, cpr0_xcontext, sr_exl,
}
use interp_mips.Exception.{set_exc_pc, exc_vector, enter_exl, set_exc_code}

-- `R | VPN2 | ASID`, the fields of EntryHi.
abbrev pub entry_hi_of : ℕ → ℕ → ℕ → ℕ
entry_hi_of r vpn2 asid = r <<< 62 + vpn2 <<< 13 + asid

-- The bits that a write of a coprocessor-0 register keeps.
unfoldable pub cp0_write_mask : ℕ → ℕ → ℕ
cp0_write_mask rd v =
    if rd == cpr0_entryhi
    then entry_hi_of (bits v 62 2) (bits v 13 27) (bits v 0 8)
    else if rd == cpr0_pagemask
    then bits v 13 12 <<< 13
    else if rd == cpr0_entrylo0
    then bits v 0 30
    else if rd == cpr0_entrylo1
    then bits v 0 30
    else v

-- The staged EntryHi, Context and XContext after a fault at `va`.
abbrev pub fault_entry_hi : State → ℕ → ℕ
fault_entry_hi s va = entry_hi_of (bits va 62 2) (bits va 13 27) (bits (s.cpr0_64 cpr0_entryhi) 0 8)

abbrev pub fault_context : State → ℕ → ℕ
fault_context s va = let ctx = s.cpr0_64 cpr0_context in ctx - ctx % 2 ^ 23 + bits va 13 19 <<< 4

abbrev pub fault_xcontext : State → ℕ → ℕ
fault_xcontext s va =
    let xctx = s.cpr0_64 cpr0_xcontext in
    xctx - xctx % 2 ^ 33 + bits va 13 27 <<< 4 + bits va 62 2 <<< 31

unfoldable pub tlb_set_fault_state : State → ℕ → State
tlb_set_fault_state s va = record s {
  cpr0 =
      update
        (update
          (update (update s.cpr0 cpr0_badvaddr (u32 va)) cpr0_entryhi (u32 (fault_entry_hi s va)))
          cpr0_context (u32 (fault_context s va)))
        cpr0_xcontext (u32 (fault_xcontext s va));
  cpr0_64 =
      update
        (update (update (update s.cpr0_64 cpr0_badvaddr va) cpr0_entryhi (fault_entry_hi s va))
          cpr0_context (fault_context s va))
        cpr0_xcontext (fault_xcontext s va);
}

unfoldable pub raise_tlb : State → ℕ → ℕ → Bool → Bool → State
unfolding tlb_set_fault_state set_exc_pc exc_vector
raise_tlb s va exccode is_refill is_xtlb =
    let exl_was_set = sr_exl s in
    let t = set_exc_pc (tlb_set_fault_state s va) in
    record t {
      cpr0 =
          update (update t.cpr0 cpr0_cause (set_exc_code (t.cpr0 cpr0_cause) exccode)) cpr0_sr
            (enter_exl (t.cpr0 cpr0_sr));
      pc = sext32 (exc_vector t (is_refill && not exl_was_set) exl_was_set is_xtlb);
      tlb_fault = true;
    }
