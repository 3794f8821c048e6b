-- ===== src/Alu/Immediate.antt =====
-- The instructions with an immediate operand: opcodes 0x08 to 0x0f, 0x18 and 0x19.
use interp_mips.Prelude.{
  ℕ, ◌+◌, ◌%◌, ◌^◌, ◌/◌, if◌then◌else◌, ◌==◌, ltb, u32, u64, bits, sext16, sext32, slt64, ◌<<<◌,
  bit_and, bit_or, bit_xor, Option, none, some,
}
use interp_mips.Cpu.{State}
use interp_mips.Alu.Write.{set_gpr}
use interp_mips.Alu.Special.{add32, add64, bool_bit}

unfoldable pub exec_immediate : ℕ → State → Option State
unfolding set_gpr add32 add64
exec_immediate inst s =
    let opcode = inst / 2 ^ 26 in
    let rs = s.gpr (bits inst 21 5) in
    let rt = bits inst 16 5 in
    let uimm = inst % 2 ^ 16 in
    let simm = sext16 inst in
    if opcode == 0x08
    then some (add32 s rt (u32 rs) (u32 simm))
    else if opcode == 0x09
    then some (set_gpr s rt (sext32 (rs + simm)))
    else if opcode == 0x0A
    then some (set_gpr s rt (bool_bit (slt64 rs simm)))
    else if opcode == 0x0B
    then some (set_gpr s rt (bool_bit (ltb rs simm)))
    else if opcode == 0x0c
    then some (set_gpr s rt (bit_and rs uimm))
    else if opcode == 0x0d
    then some (set_gpr s rt (bit_or rs uimm))
    else if opcode == 0x0e
    then some (set_gpr s rt (bit_xor rs uimm))
    else if opcode == 0x0F
    then some (set_gpr s rt (sext32 (uimm <<< 16)))
    else if opcode == 0x18
    then some (add64 s rt rs simm)
    else if opcode == 0x19
    then some (set_gpr s rt (u64 (rs + simm)))
    else none
