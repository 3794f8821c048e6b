-- ===== src/Alu/HiLo.antt =====
-- Multiplication, division, and the moves to and from HI and LO, of opcode 0.
use interp_mips.Prelude.{
  ℕ, ◌+◌, ◌-◌, ◌*◌, ◌/◌, ◌%◌, ◌^◌, Bool, true, false, not, ◌&&◌, if◌then◌else◌, ◌==◌, ltb, leb, u32,
  u64, sext32, ◌>>>◌, Option, none, some,
}
use interp_mips.Cpu.{State, Outcome, ok, host_fault}
use interp_mips.Alu.Write.{set_gpr, set_hi_lo, skip}

-- Signed division truncates: the magnitudes are divided, and the signs put back. `w` is the width.
abbrev pub magnitude : ℕ → ℕ → ℕ
magnitude w x = if ltb x (2 ^ (w - 1)) then x else 2 ^ w - x

abbrev pub negate_if : ℕ → Bool → ℕ → ℕ
negate_if w b x = if b then (2 ^ w - x) % 2 ^ w else x

abbrev pub is_neg : ℕ → ℕ → Bool
is_neg w x = leb (2 ^ (w - 1)) x

abbrev pub differ : Bool → Bool → Bool
differ true b = not b
differ false b = b

unfoldable pub signed_div : ℕ → ℕ → ℕ → ℕ
signed_div w a b = negate_if w (differ (is_neg w a) (is_neg w b)) (magnitude w a / magnitude w b)

unfoldable pub signed_rem : ℕ → ℕ → ℕ → ℕ
signed_rem w a b = negate_if w (is_neg w a) (magnitude w a % magnitude w b)

-- A 64-bit pattern, sign-extended to 128 bits.
abbrev pub sext128 : ℕ → ℕ
sext128 x = if ltb x (2 ^ 63) then x else x + (2 ^ 128 - 2 ^ 64)

unfoldable pub divu : State → ℕ → ℕ → Outcome State
unfolding set_hi_lo
divu s rs rt =
    if rt == 0
    then ok (skip s)
    else if u32 rt == 0
    then host_fault
    else ok (set_hi_lo s (sext32 (u32 rs % u32 rt)) (sext32 (u32 rs / u32 rt)))

-- The host's division traps on the quotient 2 ^ 63.
unfoldable pub ddiv : State → ℕ → ℕ → Outcome State
unfolding set_hi_lo signed_div signed_rem
ddiv s rs rt =
    if rt == 0
    then ok (skip s)
    else if rs == 2 ^ 63 && rt == 2 ^ 64 - 1
    then host_fault
    else ok (set_hi_lo s (signed_rem 64 rs rt) (signed_div 64 rs rt))

unfoldable pub div : State → ℕ → ℕ → State
unfolding set_hi_lo signed_div signed_rem
div s rs rt =
    if u32 rt == 0
    then skip s
    else set_hi_lo s (sext32 (signed_rem 32 (u32 rs) (u32 rt)))
        (sext32 (signed_div 32 (u32 rs) (u32 rt)))

unfoldable pub mult : State → ℕ → ℕ → State
unfolding set_hi_lo
mult s rs rt = let y = u64 (sext32 rs * sext32 rt) in set_hi_lo s (sext32 (y >>> 32)) (sext32 y)

unfoldable pub multu : State → ℕ → ℕ → State
unfolding set_hi_lo
multu s rs rt = let y = u32 rs * u32 rt in set_hi_lo s (sext32 (y >>> 32)) (sext32 y)

unfoldable pub dmult : State → ℕ → ℕ → State
unfolding set_hi_lo
dmult s rs rt = let y = (sext128 rs * sext128 rt) % 2 ^ 128 in set_hi_lo s (y >>> 64) (u64 y)

unfoldable pub dmultu : State → ℕ → ℕ → State
unfolding set_hi_lo
dmultu s rs rt = let y = rs * rt in set_hi_lo s (y >>> 64) (u64 y)

-- Multiplication, division, and the moves to and from HI and LO.
unfoldable pub exec_hi_lo : ℕ → State → ℕ → ℕ → ℕ → Option (Outcome State)
exec_hi_lo funct s rs rt rd =
    if funct == 0x10
    then some (ok (set_gpr s rd s.hi))
    else if funct == 0x11
    then some (ok (set_hi_lo s rs s.lo))
    else if funct == 0x12
    then some (ok (set_gpr s rd s.lo))
    else if funct == 0x13
    then some (ok (set_hi_lo s s.hi rs))
    else if funct == 0x18
    then some (ok (mult s rs rt))
    else if funct == 0x19
    then some (ok (multu s rs rt))
    else if funct == 0x1A
    then some (ok (div s rs rt))
    else if funct == 0x1B
    then some (divu s rs rt)
    else if funct == 0x1C
    then some (ok (dmult s rs rt))
    else if funct == 0x1D
    then some (ok (dmultu s rs rt))
    else if funct == 0x1E
    then some (ddiv s rs rt)
    else if funct == 0x1F
    then some (ok (if rt == 0 then skip s else set_hi_lo s (rs % rt) (rs / rt)))
    else none
