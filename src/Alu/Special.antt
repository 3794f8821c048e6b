-- ===== src/Alu/Special.antt =====
-- The instructions of opcode 0, by `funct`: the values that go to rd, the additions that trap, the
-- conditional traps, and the dispatch.
use interp_mips.Prelude.{
  ℕ, ◌+◌, ◌-◌, ◌%◌, ◌^◌, Bool, not, ◌&&◌, if◌then◌else◌, ◌==◌, ltb, leb, u32, u64, sub32, sub64,
  bits, sext32, slt64, not64, ◌<<<◌, ◌>>>◌, bit_and, bit_or, bit_xor, Option, none, some,
}
use interp_mips.Cpu.{State, Outcome, ok}
use interp_mips.Exception.{
  raise_overflow, raise_trap, raise_syscall, raise_break, take_exception_ri,
}
use interp_mips.Alu.Write.{set_gpr, skip}
use interp_mips.Alu.HiLo.{exec_hi_lo}

-- An arithmetic shift to the right of a 64-bit pattern.
abbrev pub asr64 : ℕ → ℕ → ℕ
asr64 x k = if ltb x (2 ^ 63) then x >>> k else not64 (not64 x >>> k)

abbrev pub bool_bit : Bool → ℕ
bool_bit b = if b then 1 else 0

unfoldable pub shift_value : ℕ → ℕ → ℕ → ℕ → Option ℕ
shift_value funct rs rt sa =
    if funct == 0x00
    then some (sext32 (u32 rt <<< sa))
    else if funct == 0x02
    then some (sext32 (u32 rt >>> sa))
    else if funct == 0x03
    then some (asr64 (sext32 rt) sa)
    else if funct == 0x04
    then some (sext32 (u32 rt <<< (rs % 32)))
    else if funct == 0x06
    then some (sext32 (u32 rt >>> (rs % 32)))
    else if funct == 0x07
    then some (asr64 (sext32 rt) (rs % 32))
    else if funct == 0x14
    then some (u64 (rt <<< (rs % 64)))
    else if funct == 0x16
    then some (rt >>> (rs % 64))
    else if funct == 0x17
    then some (asr64 rt (rs % 64))
    else if funct == 0x38
    then some (u64 (rt <<< sa))
    else if funct == 0x3A
    then some (rt >>> sa)
    else if funct == 0x3B
    then some (asr64 rt sa)
    else if funct == 0x3C
    then some (u64 (rt <<< (sa + 32)))
    else if funct == 0x3E
    then some (rt >>> (sa + 32))
    else if funct == 0x3F
    then some (asr64 rt (sa + 32))
    else none

-- `rd` is the number of the destination and `old` its value.
unfoldable pub logic_value : ℕ → ℕ → ℕ → ℕ → ℕ → Option ℕ
logic_value funct rs rt rd old =
    if funct == 0x21
    then some (sext32 (u32 rs + u32 rt))
    else if funct == 0x23
    then some (sext32 (sub32 (u32 rs) (u32 rt)))
    else if funct == 0x24
    then some (bit_and rs rt)
    else if funct == 0x25
    then some (if rd == 0 then old else bit_or rs rt)
    else if funct == 0x26
    then some (bit_xor rs rt)
    else if funct == 0x27
    then some (not64 (bit_or rs rt))
    else if funct == 0x2A
    then some (bool_bit (slt64 rs rt))
    else if funct == 0x2B
    then some (bool_bit (ltb rs rt))
    else if funct == 0x0B
    then some (if rt == 0 then old else rs)
    else if funct == 0x0A
    then some (if rt == 0 then rs else old)
    else if funct == 0x2D
    then some (u64 (rs + rt))
    else if funct == 0x2F
    then some (sub64 rs rt)
    else none

-- The sign of a w-bit pattern.
abbrev pub sign : ℕ → ℕ → ℕ
sign w x = x >>> (w - 1)

unfoldable pub add32 : State → ℕ → ℕ → ℕ → State
unfolding set_gpr raise_overflow
add32 s rd u v =
    let result = u32 (u + v) in
    if not (sign 32 result == sign 32 v) && sign 32 u == sign 32 v
    then raise_overflow s
    else set_gpr s rd (sext32 result)

unfoldable pub subtract32 : State → ℕ → ℕ → ℕ → State
unfolding set_gpr raise_overflow
subtract32 s rd u v =
    let result = sub32 u v in
    if not (sign 32 result == sign 32 u) && not (sign 32 u == sign 32 v)
    then raise_overflow s
    else set_gpr s rd (sext32 result)

unfoldable pub add64 : State → ℕ → ℕ → ℕ → State
unfolding set_gpr raise_overflow
add64 s rd u v =
    let result = u64 (u + v) in
    if not (sign 64 result == sign 64 v) && sign 64 u == sign 64 v
    then raise_overflow s
    else set_gpr s rd result

unfoldable pub subtract64 : State → ℕ → ℕ → ℕ → State
unfolding set_gpr raise_overflow
subtract64 s rd u v =
    let result = sub64 u v in
    if not (sign 64 result == sign 64 u) && not (sign 64 u == sign 64 v)
    then raise_overflow s
    else set_gpr s rd result

-- The condition of a trap instruction.
unfoldable pub trap_condition : ℕ → ℕ → ℕ → Option Bool
trap_condition funct rs rt =
    if funct == 0x30
    then some (not (slt64 rs rt))
    else if funct == 0x31
    then some (leb rt rs)
    else if funct == 0x32
    then some (slt64 rs rt)
    else if funct == 0x33
    then some (ltb rs rt)
    else if funct == 0x34
    then some (rs == rt)
    else if funct == 0x36
    then some (not (rs == rt))
    else none

abbrev pub trap_if : State → Bool → State
trap_if s c = if c then raise_trap s else skip s

-- What is left: the additions that trap, `syscall`, `break`, `sync` and the reserved encodings.
unfoldable pub exec_other : ℕ → State → ℕ → ℕ → ℕ → State
exec_other funct s rs rt rd =
    if funct == 0x20
    then add32 s rd (u32 rs) (u32 rt)
    else if funct == 0x22
    then subtract32 s rd (u32 rs) (u32 rt)
    else if funct == 0x2C
    then add64 s rd rs rt
    else if funct == 0x2E
    then subtract64 s rd rs rt
    else if funct == 0x0C
    then raise_syscall s
    else if funct == 0x0D
    then raise_break s
    else if funct == 0x0f
    then skip s
    else take_exception_ri s

abbrev pub by_trap : State → Option Bool → State → State
by_trap s (some c) other = trap_if s c
by_trap s none other = other

abbrev pub by_hi_lo : Option (Outcome State) → Outcome State → Outcome State
by_hi_lo (some r) other = r
by_hi_lo none other = other

abbrev pub by_value : State → ℕ → Option ℕ → Outcome State → Outcome State
by_value s rd (some v) other = ok (set_gpr s rd v)
by_value s rd none other = other

-- Opcode 0 without `movci`, `jr` and `jalr`.
unfoldable pub exec_special : ℕ → State → Outcome State
exec_special inst s =
    let funct = inst % 64 in
    let rd = bits inst 11 5 in
    let rs = s.gpr (bits inst 21 5) in
    let rt = s.gpr (bits inst 16 5) in
    by_value s rd (shift_value funct rs rt (bits inst 6 5)) (
      by_value s rd (logic_value funct rs rt rd (s.gpr rd)) (
        by_hi_lo (exec_hi_lo funct s rs rt rd)
          (ok (by_trap s (trap_condition funct rs rt) (exec_other funct s rs rt rd)))))
