-- ===== src/Alu/Overflow.antt =====
-- The additions and subtractions of interpret.cc that trap, beside addition and subtraction in ℤ.
use interp_mips.Prelude.{ℕ, suc, ◌-◌, ◌^◌, ◌<◌, ◌≡◌, arith, Bool, ◌&&◌, if◌then◌else◌, ltb, leb}
use interp_mips.Prelude.Int.{ℤ, pos, negsuc, pos_part, neg_part, ◌+ℤ◌, ◌-ℤ◌}
use interp_mips.Cpu.{State}
use interp_mips.Exception.{raise_overflow}
use interp_mips.Alu.Write.{set_gpr}
use interp_mips.Alu.Special.{add32, subtract32, add64, subtract64}

-- The integer that a pattern of w bits stands for, and the 64-bit pattern of an integer.
abbrev pub signed : ℕ → ℕ → ℤ
signed w x = if ltb x (2 ^ (w - 1)) then pos x else negsuc (2 ^ w - x - 1)

abbrev pub pattern64 : ℤ → ℕ
pattern64 (pos n) = n
pattern64 (negsuc n) = 2 ^ 64 - suc n

abbrev pub fits : ℕ → ℤ → Bool
fits w z = ltb (pos_part z) (2 ^ (w - 1)) && leb (neg_part z) (2 ^ (w - 1))

-- The result where it fits, and the exception where it does not.
abbrev pub checked : ℕ → State → ℕ → ℤ → State
checked w s rd z = if fits w z then set_gpr s rd (pattern64 z) else raise_overflow s

-- On 32-bit operands the addition of ADD and ADDI writes the exact sum of the signed words
-- where it fits 32 bits, and raises the overflow exception with the register kept where it does
-- not.
pub add32-eq-checked :
    (s : State) (rd u v : ℕ)
    → u < 2 ^ 32
    → v < 2 ^ 32
    → add32 s rd u v ≡ checked 32 s rd (signed 32 u +ℤ signed 32 v)
unfolding add32 ◌+ℤ◌
add32-eq-checked s rd u v p q = ground arith

-- On 32-bit operands the subtraction of SUB writes the exact difference of the signed words
-- where it fits 32 bits, and raises the overflow exception where it does not.
pub subtract32-eq-checked :
    (s : State) (rd u v : ℕ)
    → u < 2 ^ 32
    → v < 2 ^ 32
    → subtract32 s rd u v ≡ checked 32 s rd (signed 32 u -ℤ signed 32 v)
unfolding subtract32 ◌-ℤ◌
subtract32-eq-checked s rd u v p q = ground arith

-- On 64-bit operands the addition of DADD and DADDI writes the exact signed sum where it fits
-- 64 bits, and raises the overflow exception where it does not.
pub add64-eq-checked :
    (s : State) (rd u v : ℕ)
    → u < 2 ^ 64
    → v < 2 ^ 64
    → add64 s rd u v ≡ checked 64 s rd (signed 64 u +ℤ signed 64 v)
unfolding add64 ◌+ℤ◌
add64-eq-checked s rd u v p q = ground arith

-- On 64-bit operands the subtraction of DSUB writes the exact signed difference where it fits
-- 64 bits, and raises the overflow exception where it does not.
pub subtract64-eq-checked :
    (s : State) (rd u v : ℕ)
    → u < 2 ^ 64
    → v < 2 ^ 64
    → subtract64 s rd u v ≡ checked 64 s rd (signed 64 u -ℤ signed 64 v)
unfolding subtract64 ◌-ℤ◌
subtract64-eq-checked s rd u v p q = ground arith
