-- ===== src/Tlb/Kept.antt =====
-- What a translation that finds its page leaves of the processor.
use interp_mips.Prelude.{ℕ, ◌≡◌, refl, false, Option-cases, inl, inr, Bool-cases, ◌>>>◌, ◌%◌}
use interp_mips.Cpu.{State}
use interp_mips.Tlb.Fault.{raise_tlb}
use interp_mips.Tlb.Entry.{TlbOp, Walk, refill, invalid, modified, hit, tlb_walk}
use interp_mips.Tlb.Translate.{unmapped, cur_asid, utlb_hits, walk_end, va_mapped, va_translate}

-- `t` differs from `s` at most in the micro-TLB and in the marks of the access.
pub record IsKept (s t : State) : Type 0 where
  pub pc : t.pc ≡ s.pc
  pub gpr : t.gpr ≡ s.gpr
  pub cpr0 : t.cpr0 ≡ s.cpr0
  pub cpr0_64 : t.cpr0_64 ≡ s.cpr0_64
  pub in_delay_slot : t.in_delay_slot ≡ s.in_delay_slot

walk_end-IsKept :
    (s : State) (va : ℕ) (op : TlbOp) (w : Walk)
    → (walk_end s va op w).0.tlb_fault ≡ false
    → IsKept s (walk_end s va op w).0
unfolding walk_end raise_tlb
walk_end-IsKept s va op refill h = absurd (cc)
walk_end-IsKept s va op invalid h = absurd (cc)
walk_end-IsKept s va op modified h = absurd (cc)
walk_end-IsKept s va op (hit pa dirty cached) h = record {
  pc = refl;
  gpr = refl;
  cpr0 = refl;
  cpr0_64 = refl;
  in_delay_slot = refl;
}

va_mapped-IsKept :
    (s : State) (va : ℕ) (op : TlbOp)
    → (va_mapped s va op).0.tlb_fault ≡ false
    → IsKept s (va_mapped s va op).0
unfolding va_mapped
va_mapped-IsKept s va op h =
    elim (Bool-cases (utlb_hits (s.utlb (va >>> 12 % 64)) (va >>> 12) (cur_asid s) op)) [
      | inl e ↦
          rw e (record { pc = refl; gpr = refl; cpr0 = refl; cpr0_64 = refl; in_delay_slot = refl })
      | inr e ↦ rw e (walk_end-IsKept s va op (tlb_walk s.tlb (cur_asid s) va op) (rw e at h))
    ]

pub va_translate-IsKept :
    (s : State) (va : ℕ) (op : TlbOp)
    → (va_translate s va op).0.tlb_fault ≡ false
    → IsKept s (va_translate s va op).0
unfolding va_translate
va_translate-IsKept s va op h = elim (Option-cases (unmapped va)) [
  | inl e ↦ rw e (va_mapped-IsKept s va op (rw e at h))
  | inr (p, e) ↦
      rw e (record { pc = refl; gpr = refl; cpr0 = refl; cpr0_64 = refl; in_delay_slot = refl })
]
