-- ===== src/Dispatch/Gates.antt =====
-- The gates of `execMips` before the decoder: the 64-bit instructions, those of MIPS IV, and a
-- coprocessor 1 that is off. `r5000` is the flag `globals::cpu_r5000`.
use interp_mips.Prelude.{
  ℕ, ◌%◌, ◌/◌, ◌^◌, Bool, not, ◌&&◌, ◌||◌, if◌then◌else◌, ◌==◌, is_set, Option, some, none,
}
use interp_mips.Cpu.{State, cpr0_sr}
use interp_mips.Exception.{in_64b_mode, take_exception_ri, take_exception_cpu}

abbrev pub opcode_of : ℕ → ℕ
opcode_of inst = inst / 2 ^ 26

-- The shifts by a register, the multiplications and divisions, the additions, and the shifts of
-- doublewords.
abbrev pub is_64b_funct : ℕ → Bool
is_64b_funct f =
    (f == 0x14 || f == 0x16 || f == 0x17)
    || (f == 0x1c || f == 0x1d || f == 0x1e || f == 0x1f)
    || (f == 0x2c || f == 0x2d || f == 0x2e || f == 0x2f)
    || (f == 0x38 || f == 0x3a || f == 0x3b)

unfoldable pub is_64b_gated : ℕ → Bool
is_64b_gated inst = opcode_of inst == 0x19 || ((opcode_of inst == 0) && is_64b_funct (inst % 64))

unfoldable pub is_mips4 : ℕ → Bool
is_mips4 inst =
    let fn = inst % 64 in
    opcode_of inst == 0x13 || ((opcode_of inst == 0) && (fn == 0x01 || fn == 0x0a || fn == 0x0b))

unfoldable pub is_cp1 : ℕ → Bool
is_cp1 inst =
    let op = opcode_of inst in
    op == 0x11 || op == 0x13 || op == 0x31 || op == 0x35 || op == 0x39 || op == 0x3d

abbrev pub sr_cu1 : State → Bool
sr_cu1 s = is_set (s.cpr0 cpr0_sr) 29

-- The state after the exception of a gate that is shut, or nothing where the decoder goes on.
unfoldable pub gates : Bool → ℕ → State → Option State
unfolding is_64b_gated is_mips4 is_cp1
gates r5000 inst s =
    if is_64b_gated inst && not (in_64b_mode s)
    then some (take_exception_ri s)
    else if not r5000 && is_mips4 inst
    then some (take_exception_ri s)
    else if is_cp1 inst && not (sr_cu1 s)
    then some (take_exception_cpu s 1)
    else none
