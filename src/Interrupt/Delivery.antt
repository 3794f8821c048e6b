-- ===== src/Interrupt/Delivery.antt =====
-- When `maybe_take_interrupt` of interpret.cc takes an interrupt, and the steps without one.
use interp_mips.Prelude.{
  ℕ, ◌+◌, ◌^◌, ◌<◌, ◌≡◌, ◌≢◌, refl, arith, true, false, not, ◌&&◌, ◌||◌, u32, bits, is_set, sext32,
  if◌then◌else◌, bit_and, bit_and_both, ◌∙◌,
}
use interp_mips.Cpu.{
  State, cpr0_sr, cpr0_cause, cpr0_count, cpr0_compare, cpr0_epc, sr_ie, sr_exl, sr_erl, sr_bev,
}
use interp_mips.Exception.{set_exc_pc, raise_common, restart_pc}
use interp_mips.Exception.Precise.{IsRaised, raise_common-IsRaised}
use interp_mips.Interrupt.{
  Lines, tick_timer, poll_lines, int_enabled, deliver, maybe_take_interrupt,
}

-- The registers that a step without an interrupt leaves.
pub record IsUninterrupted (s t : State) : Type 0 where
  pub pc : t.pc ≡ s.pc
  pub gpr : t.gpr ≡ s.gpr
  pub saved : t.cpr0_64 ≡ s.cpr0_64
  pub status : t.cpr0 cpr0_sr ≡ s.cpr0 cpr0_sr
  pub linked : t.ll_armed ≡ s.ll_armed
  pub count : t.cpr0 cpr0_count ≡ u32 (s.cpr0 cpr0_count + 1)

module _ (p : ℕ) (l : Lines) (s : State) where
  -- Where IE is clear or EXL or ERL is set, no interrupt is taken whatever is pending and
  -- whatever the devices answer: the pc, the general registers, the 64-bit coprocessor-0
  -- registers, Status and the load-link stay, and Count advances by one in 32 bits.
  pub maybe_take_interrupt-IsUninterrupted :
      (sr_ie s && not (sr_exl s || sr_erl s)) ≡ false
      → IsUninterrupted s (maybe_take_interrupt p l s)
  unfolding maybe_take_interrupt tick_timer poll_lines deliver
  maybe_take_interrupt-IsUninterrupted h = record {
    pc = ground arith;
    gpr = ground arith;
    saved = ground arith;
    status = ground arith;
    linked = ground arith;
    count = ground arith;
  }

  -- What the poll leaves of the state that decides on an interrupt.
  abbrev polled : State
  polled = poll_lines (tick_timer s) l

  polled-timer :
      u32 (s.cpr0 cpr0_count + 1) ≡ s.cpr0 cpr0_compare → is_set (polled.cpr0 cpr0_cause) 15 ≡ true
  unfolding tick_timer poll_lines
  polled-timer h = ground arith

  polled-status : polled.cpr0 cpr0_sr ≡ s.cpr0 cpr0_sr
  unfolding tick_timer poll_lines
  polled-status = ground arith

  polled-cause : s.cpr0 cpr0_cause < 2 ^ 32 → polled.cpr0 cpr0_cause < 2 ^ 32
  unfolding tick_timer poll_lines
  polled-cause h = ground arith

  polled-restart_pc : restart_pc polled ≡ restart_pc s
  unfolding tick_timer poll_lines
  polled-restart_pc = refl

  polled-gpr : polled.gpr ≡ s.gpr
  unfolding tick_timer poll_lines
  polled-gpr = refl

  polls : s.irq_poke ≡ true → maybe_take_interrupt p l s ≡ deliver polled
  unfolding maybe_take_interrupt tick_timer
  polls h = rw h refl

-- The eight pending bits under the mask of Status are not all clear where bit 15 is set in both.
pending :
    (cause sr : ℕ)
    → is_set cause 15 ≡ true
    → is_set sr 15 ≡ true
    → bit_and (bit_and cause sr) 0xff00 ≢ 0
pending cause sr h k e = ground (
  arith,
  e,
  bit_and_both 15 cause sr (ground arith) (ground arith),
  bit_and_both 15 (bit_and cause sr) 0xff00 (bit_and_both 15 cause sr (ground arith) (ground arith))
      refl,
)

-- `t` is where an interrupt leads from `s`, with the timer pending.
pub record IsInterrupted (s t : State) : Type 0 where
  pub epc : t.cpr0_64 cpr0_epc ≡ restart_pc s
  pub exc_code : bits (t.cpr0 cpr0_cause) 2 5 ≡ 0
  pub masked : sr_exl t ≡ true
  pub gpr : t.gpr ≡ s.gpr
  pub unlinked : t.ll_armed ≡ false
  pub vector : t.pc ≡ sext32 (if sr_bev s then 0xBFC00380 else 0x80000180)

deliver-takes : (t : State) → int_enabled t ≡ true → deliver t ≡ raise_common (set_exc_pc t) 0
unfolding deliver
deliver-takes t h = rw h refl

module _ (p : ℕ) (l : Lines) (s : State) where
  timer_enabled :
      u32 (s.cpr0 cpr0_count + 1) ≡ s.cpr0 cpr0_compare
      → is_set (s.cpr0 cpr0_sr) 15 ≡ true
      → (sr_ie s && not (sr_exl s || sr_erl s)) ≡ true
      → int_enabled (polled p l s) ≡ true
  timer_enabled m k e =
      let n = pending ((polled p l s).cpr0 cpr0_cause) (s.cpr0 cpr0_sr) (polled-timer p l s m) k in
      rw (polled-status p l s) (ground (arith, n, e))

  -- A timer interrupt is taken on the step on which Count comes to Compare, where IE is set
  -- with EXL and ERL clear, Status enables IP7, Cause holds 32 bits and a poll is due by
  -- irq_poke: EPC is the pc, or that of the branch in a delay slot, the code is 0, EXL is
  -- set, the general registers stay, the load-link is broken, and the pc is the general
  -- vector that BEV selects.
  pub maybe_take_interrupt-IsInterrupted :
      s.irq_poke ≡ true
      → s.cpr0 cpr0_cause < 2 ^ 32
      → u32 (s.cpr0 cpr0_count + 1) ≡ s.cpr0 cpr0_compare
      → is_set (s.cpr0 cpr0_sr) 15 ≡ true
      → (sr_ie s && not (sr_exl s || sr_erl s)) ≡ true
      → IsInterrupted s (maybe_take_interrupt p l s)
  maybe_take_interrupt-IsInterrupted poke c m k e =
      rw (polls p l s poke, deliver-takes (polled p l s) (timer_enabled m k e)) taken
    where
      raised : IsRaised 0 (polled p l s) (raise_common (set_exc_pc (polled p l s)) 0)
      raised =
          raise_common-IsRaised (polled p l s) 0 (omega arith) (polled-cause p l s c)
            (rw (polled-status p l s) (ground (arith, e)))

      taken : IsInterrupted s (raise_common (set_exc_pc (polled p l s)) 0)
      taken = record {
        epc = raised.epc_64 ∙ polled-restart_pc p l s;
        exc_code = raised.exc_code;
        masked = raised.exl;
        gpr = raised.gpr ∙ polled-gpr p l s;
        unlinked = raised.unlinked;
        vector = rw (polled-status p l s) at (raised.vector);
      }
