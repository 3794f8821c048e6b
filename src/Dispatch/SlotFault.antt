-- ===== src/Dispatch/SlotFault.antt =====
-- An instruction that execMips fetches in the delay slot of a branch and that raises an exception.
use interp_mips.Prelude.{
  ℕ, suc, ◌^◌, ◌<◌, ◌≡◌, refl, arith, Bool, true, false, not, ◌&&◌, if◌then◌else◌, is_set, ◌∙◌, sym,
  ap, Bool-cases, inl, inr, sext32, bits, some,
}
use interp_mips.Cpu.{State, Outcome, ok, host_fault, next_pc, cpr0_epc, cpr0_cause, sr_exl, sr_bev}
use interp_mips.Exception.{set_exc_pc, restart_pc, raise_common}
use interp_mips.Exception.Precise.{raise_common-IsRaised}
use interp_mips.Memory.Sparse.{Devices, SparseMem}
use interp_mips.Memory.Access.{Machine}
use interp_mips.Tlb.Entry.{fetch}
use interp_mips.Tlb.Translate.{va_translate}
use interp_mips.Tlb.Kept.{va_translate-IsKept}
use interp_mips.Branch.{BranchType, is_likely, saves_return, take_branch, link, branch}
use interp_mips.Branch.Slot.{slot_state, branch_runs}
use interp_mips.Dispatch.Step.{start, fetch_inst, nest, exec_mips}
use interp_mips.Dispatch.Raises.{slot_code, slot_code-below, decode-raises}

-- What the fetch of an instruction leaves of the processor.
fetch_inst-IsKept :
    (V : Devices) (s t : State) (m n : SparseMem V) (inst : ℕ)
    → fetch_inst V (s, m) ≡ (some inst, (t, n))
    → (t.pc ≡ s.pc) × (t.cpr0 ≡ s.cpr0) × (t.in_delay_slot ≡ s.in_delay_slot)
unfolding fetch_inst
fetch_inst-IsKept V s t m n inst h =
    elim (Bool-cases ((va_translate (start V s) s.pc fetch).0.tlb_fault)) [
      | inl e ↦ absurd (ground (arith, rw e at h))
      | inr e ↦
          let k = va_translate-IsKept (start V s) s.pc fetch e in
          let g = rw e at h in
          (
            sym (ap (λ x. x.1.0.pc) g) ∙ k.pc,
            sym (ap (λ x. x.1.0.cpr0) g) ∙ k.cpr0,
            sym (ap (λ x. x.1.0.in_delay_slot) g) ∙ k.in_delay_slot,
          )
    ]

-- Where a branch at `s` ends whose delay slot raised the exception `code`.
pub record IsSlotRaised (V : Devices) (s : State) (n : SparseMem V) (code : ℕ)
    (o : Outcome (Machine V)) : Type 0 where
  pub after : State
  pub ends : o ≡ ok (after, n)
  pub epc : after.cpr0_64 cpr0_epc ≡ s.pc
  pub bd : is_set (after.cpr0 cpr0_cause) 31 ≡ true
  pub exc_code : bits (after.cpr0 cpr0_cause) 2 5 ≡ code
  pub exl : sr_exl after ≡ true
  pub vector : after.pc ≡ sext32 (if sr_bev s then 0xBFC00380 else 0x80000180)
  pub restored : after.in_delay_slot ≡ s.in_delay_slot

restart-branch :
    (pc : ℕ) (t : State)
    → pc < 2 ^ 64
    → t.pc ≡ next_pc pc
    → t.in_delay_slot ≡ true
    → restart_pc t ≡ pc
restart-branch pc t h e d = ground arith

module _ (V : Devices) (r5000 : Bool) (arithmetic : ℕ → State → Outcome State)
    (coproc1x : ℕ → Machine V → Outcome (Machine V)) (d : ℕ) (s : State) (m : SparseMem V) where
  abbrev exec : Machine V → Outcome (Machine V)
  exec = exec_mips V r5000 arithmetic coproc1x (suc d)

  slot_runs :
      (bt : BranchType) (inst2 code : ℕ) (t : State) (n : SparseMem V)
      → fetch_inst V (slot_state s bt, m) ≡ (some inst2, (t, n))
      → slot_code inst2 t ≡ some code
      → exec (slot_state s bt, m) ≡ ok (raise_common (set_exc_pc t) code, n)
  unfolding exec_mips
  slot_runs bt inst2 code t n f h = rw f (
      decode-raises V r5000 arithmetic coproc1x
        (nest V r5000 arithmetic coproc1x d (λ c. host_fault)) inst2 code t n h)

  -- An exception in the delay slot of a branch is precise. A branch below 2 ^ 64, with EXL
  -- clear and a 32-bit Cause, runs its slot, which a likely branch does where it is taken,
  -- and execMips, with any number of nested calls left to it but zero, fetches from the slot
  -- without a fault a SYSCALL, a BREAK, a trap whose condition holds, an ADD or SUB whose
  -- exact result does not fit a word, or an instruction of the reserved opcodes 0x1c and
  -- 0x1f. Then the branch ends at the general handler that BEV selects and not at its target,
  -- with the full EPC the address of the branch, BD and the code of that exception in Cause,
  -- EXL set, the mark of the delay slot as before the branch, and the memory as the fetch
  -- left it.
  pub branch-IsSlotRaised :
      (bt : BranchType) (inst inst2 code : ℕ) (t : State) (n : SparseMem V)
      → s.cpr0 cpr0_cause < 2 ^ 32
      → s.pc < 2 ^ 64
      → sr_exl s ≡ false
      → (is_likely bt && not (take_branch bt inst s)) ≡ false
      → fetch_inst V (slot_state s bt, m) ≡ (some inst2, (t, n))
      → slot_code inst2 t ≡ some code
      → IsSlotRaised V s n code
          (branch V (exec_mips V r5000 arithmetic coproc1x (suc d)) bt inst (s, m))
  branch-IsSlotRaised bt inst inst2 code t n c b x r f h =
      let (kp, kc, kd) = fetch_inst-IsKept V (slot_state s bt) t m n inst2 f in
      let u = raise_common (set_exc_pc t) code in
      let k = slot_code-below inst2 code t h in
      let i = raise_common-IsRaised t code k (rw kc c) (rw kc x) in
      record {
        after = record (link (not (is_likely bt) && saves_return bt) s.pc u) {
          in_delay_slot = s.in_delay_slot;
        };
        ends =
            branch_runs V exec s m bt inst u n r (slot_runs bt inst2 code t n f h)
            ∙ ground (arith, x, i.exl);
        epc = i.epc_64 ∙ restart-branch s.pc t b kp kd;
        bd = i.bd ∙ kd;
        exc_code = i.exc_code;
        exl = i.exl;
        vector = i.vector ∙ rw kc refl;
        restored = refl;
      }
