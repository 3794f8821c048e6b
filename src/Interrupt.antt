-- ===== src/Interrupt.antt =====
-- `maybe_take_interrupt` of interpret.cc: the timer of Count and Compare and the delivery of the
-- interrupts. What the devices answer to the poll is an argument; the ticks of the devices
-- themselves and the probes are left out.
pub mod Delivery
use interp_mips.Prelude.{
  ℕ, ◌+◌, ◌-◌, ◌*◌, ◌/◌, ◌%◌, ◌^◌, ◌<◌, ◌≡◌, refl, arith, Bool, true, false, not, ◌&&◌, ◌||◌,
  if◌then◌else◌, ◌==◌, u32, bits, is_set, set_bit, clear_bit, update, bit_and, sext32, ◌⊎◌,
}
use interp_mips.Cpu.{
  State, cpr0_sr, cpr0_cause, cpr0_count, cpr0_compare, cpr0_epc, sr_ie, sr_exl, sr_erl, sr_bev,
}
use interp_mips.Exception.{set_exc_pc, raise_common, restart_pc}

-- What the devices answer: IP2 of the HPC, whether there is a Newport board, and its IP3.
pub record Lines : Type 0 where
  pub ip2 : Bool
  pub np : Bool
  pub ip3 : Bool

-- Count advances, and sets IP7 where it meets Compare.
unfoldable pub tick_timer : State → State
tick_timer s =
    let count = u32 (s.cpr0 cpr0_count + 1) in
    let c = update s.cpr0 cpr0_count count in
    record s {
      cpr0 =
          if count == s.cpr0 cpr0_compare
          then update c cpr0_cause (set_bit (s.cpr0 cpr0_cause) 15)
          else c;
    }

abbrev pub assign_bit : Bool → ℕ → ℕ → ℕ
assign_bit b x k = if b then set_bit x k else clear_bit x k

-- The lines of the devices, in Cause.
unfoldable pub poll_lines : State → Lines → State
poll_lines s l =
    let cause = assign_bit l.ip2 (s.cpr0 cpr0_cause) 10 in
    record s {
      irq_poke = false;
      cpr0 = update s.cpr0 cpr0_cause (if l.np then assign_bit l.ip3 cause 11 else cause);
    }

abbrev pub int_enabled : State → Bool
int_enabled s =
    sr_ie s
    && not (sr_exl s || sr_erl s)
    && not (bit_and (bit_and (s.cpr0 cpr0_cause) (s.cpr0 cpr0_sr)) 0xff00 == 0)

unfoldable pub deliver : State → State
unfolding set_exc_pc raise_common
deliver s = if int_enabled s then raise_common (set_exc_pc s) 0 else s

-- `int_poll` is the period of the poll, INT_POLL.
unfoldable pub maybe_take_interrupt : ℕ → Lines → State → State
unfolding tick_timer poll_lines deliver
maybe_take_interrupt int_poll l s =
    let t = tick_timer s in
    if not t.irq_poke && not (bit_and t.icnt (int_poll - 1) == 0)
    then t
    else deliver (poll_lines t l)
