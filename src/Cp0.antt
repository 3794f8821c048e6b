-- ===== src/Cp0.antt =====
-- Coprocessor 0 in `execMips` of interpret.cc: the moves to and from its registers, DI, EI, ERET,
-- WAIT and the TLB instructions. The experiments switched on by TIMER_SCALE, MTC0_IRQ_PC and
-- TLBP_ZERO_ON_MISS are off. The character that register 7 prints is left out; its effect on
-- `brk` is kept.
pub mod Return
use interp_mips.Prelude.{
  ℕ, ◌+◌, ◌-◌, ◌*◌, ◌/◌, ◌%◌, ◌^◌, Bool, true, false, not, ◌&&◌, ◌||◌, if◌then◌else◌, ◌==◌, u32, u8,
  sub64, bits, is_set, set_bit, clear_bit, sext32, update,
}
use interp_mips.Cpu.{
  State, Outcome, ok, exits, aborts, host_fault, cpr0_sr, cpr0_cause, cpr0_epc, cpr0_errorepc,
  cpr0_entryhi, cpr0_compare, cpr0_prid, sr_erl, sr_ie, next_pc,
}
use interp_mips.Tlb.Fault.{cp0_write_mask}
use interp_mips.Tlb.Ops.{tlbr, tlbwi, tlbwr, tlbp}

-- "fpga_done".
abbrev pub marker : ℕ → ℕ
marker i =
    if i == 0
    then b'f'
    else if i == 1
    then b'p'
    else if i == 2
    then b'g'
    else if i == 3
    then b'a'
    else if i == 4
    then b'_'
    else if i == 5
    then b'd'
    else if i == 6
    then b'o'
    else if i == 7
    then b'n'
    else if i == 8
    then b'e'
    else 0

abbrev pub watch_next : ℕ → ℕ → ℕ
watch_next matched c = if c == marker matched then matched + 1 else if c == marker 0 then 1 else 0

-- `console_watch`: `brk` is set at the end of the marker.
unfoldable pub console_watch : State → ℕ → State
console_watch s c =
    let matched = watch_next s.console_matched c in
    if matched == 9
    then record s { brk = 1; console_matched = 0 }
    else record s { console_matched = matched }

-- The port of register 7.
abbrev pub putchar_port : State → ℕ → ℕ → State
putchar_port s rd v = if rd == 7 && not s.silent then console_watch s (u8 v) else s

unfoldable pub mfc0 : State → ℕ → ℕ → State
mfc0 s rt rd = record s { gpr = update s.gpr rt (if rd == 7 then 0 else sext32 (s.cpr0 rd)) }

unfoldable pub dmfc0 : State → ℕ → ℕ → State
dmfc0 s rt rd = record s { gpr = update s.gpr rt (s.cpr0_64 rd) }

-- Both views of a register take the masked value; PRId is read-only.
abbrev pub write_cp0 : State → ℕ → ℕ → State
write_cp0 s rd v =
    let w = cp0_write_mask rd v in
    if rd == cpr0_prid
    then s
    else record s { cpr0 = update s.cpr0 rd (u32 w); cpr0_64 = update s.cpr0_64 rd w }

-- Writing Compare clears the timer interrupt.
abbrev pub rearm : State → ℕ → State
rearm s rd =
    if rd == cpr0_compare
    then record s { cpr0 = update s.cpr0 cpr0_cause (clear_bit (s.cpr0 cpr0_cause) 15) }
    else s

unfoldable pub mtc0 : State → ℕ → ℕ → State
unfolding cp0_write_mask console_watch
mtc0 s rt rd =
    let v = if rd == cpr0_entryhi then s.gpr rt else sext32 (s.gpr rt) in
    putchar_port (rearm (write_cp0 s rd v) rd) rd (s.gpr rt)

unfoldable pub dmtc0 : State → ℕ → ℕ → State
unfolding cp0_write_mask console_watch
dmtc0 s rt rd = putchar_port (write_cp0 s rd (s.gpr rt)) rd (s.gpr rt)

-- The pc is 4 short of the return address: the 4 is added after the switch.
unfoldable pub eret : State → State
eret s =
    if sr_erl s
    then record s {
      pc = sub64 (s.cpr0_64 cpr0_errorepc) 4;
      cpr0 = update s.cpr0 cpr0_sr (clear_bit (s.cpr0 cpr0_sr) 2);
      ll_armed = false;
    }
    else record s {
      pc = sub64 (s.cpr0_64 cpr0_epc) 4;
      cpr0 = update s.cpr0 cpr0_sr (clear_bit (s.cpr0 cpr0_sr) 1);
      ll_armed = false;
    }

unfoldable pub di : State → ℕ → State
di s rt =
    let t = if rt == 0 then s else record s { gpr = update s.gpr rt (s.cpr0 cpr0_sr) } in
    record t { cpr0 = update t.cpr0 cpr0_sr (clear_bit (t.cpr0 cpr0_sr) 0) }

unfoldable pub ei : State → ℕ → State
ei s rt =
    let t = if rt == 0 then s else record s { gpr = update s.gpr rt (s.cpr0 cpr0_sr) } in
    record t { cpr0 = update t.cpr0 cpr0_sr (set_bit (t.cpr0 cpr0_sr) 0) }

-- WAIT with the interrupts off ends the run.
unfoldable pub wait : State → Outcome State
wait s = if sr_ie s then ok s else exits

-- The instructions with CO set.
unfoldable pub exec_co : State → ℕ → Outcome State
unfolding tlbr tlbwi tlbwr tlbp eret wait
exec_co s funct =
    if funct == 1
    then ok (tlbr s)
    else if funct == 2
    then tlbwi s
    else if funct == 6
    then tlbwr s
    else if funct == 8
    then ok (tlbp s)
    else if funct == 24
    then ok (eret s)
    else if funct == 32
    then wait s
    else exits

unfoldable pub exec_moves : State → ℕ → ℕ → ℕ → Outcome State
unfolding mfc0 dmfc0 mtc0 dmtc0
exec_moves s rs rt rd =
    if rs == 0
    then ok (mfc0 s rt rd)
    else if rs == 1
    then ok (dmfc0 s rt rd)
    else if rs == 4
    then ok (mtc0 s rt rd)
    else if rs == 5
    then ok (dmtc0 s rt rd)
    else exits

-- `pc += 4` after the instruction.
abbrev pub advance : Outcome State → Outcome State
advance (ok s) = ok (record s { pc = next_pc s.pc })
advance exits = exits
advance aborts = aborts
advance host_fault = host_fault

unfoldable pub exec_coproc0 : ℕ → State → Outcome State
unfolding exec_co exec_moves di ei
exec_coproc0 inst s =
    let rs = bits inst 21 5 in
    let rt = bits inst 16 5 in
    let rd = bits inst 11 5 in
    advance (
      if is_set inst 25
      then exec_co s (inst % 64)
      else if rs == 11 && inst % 2 ^ 16 == 0x6000
      then ok (di s rt)
      else if rs == 11 && inst % 2 ^ 16 == 0x6020
      then ok (ei s rt)
      else exec_moves s rs rt rd)
