-- ===== src/Prelude/Word.antt =====
-- Machine words as native numbers: the casts of C, shifts, fields and single bits.
use Prim.Native.Nat.{ℕ, ◌+◌, ◌-◌, ◌*◌, ◌/◌, ◌%◌, ◌^◌}
use mathlib.Core.Bool.{Bool}
use interp_mips.Prelude.Tests.{ltb, ◌==◌, if◌then◌else◌}

abbrev pub u8 : ℕ → ℕ
u8 n = n % 2 ^ 8

abbrev pub u16 : ℕ → ℕ
u16 n = n % 2 ^ 16

abbrev pub u32 : ℕ → ℕ
u32 n = n % 2 ^ 32

abbrev pub u64 : ℕ → ℕ
u64 n = n % 2 ^ 64

-- a - b in 64 and in 32 bits, for b within the width; 2 ^ w is added since `-` stops at 0.
abbrev pub sub64 : ℕ → ℕ → ℕ
sub64 a b = (a + 2 ^ 64 - b) % 2 ^ 64

abbrev pub sub32 : ℕ → ℕ → ℕ
sub32 a b = (a + 2 ^ 32 - b) % 2 ^ 32

infixl 75 ◌<<<◌ ◌>>>◌
abbrev pub ◌<<<◌ : ℕ → ℕ → ℕ
x <<< k = x * 2 ^ k

abbrev pub ◌>>>◌ : ℕ → ℕ → ℕ
x >>> k = x / 2 ^ k

-- (x >> lo) & ((1 << w) - 1).
abbrev pub bits : ℕ → ℕ → ℕ → ℕ
bits x lo w = x / 2 ^ lo % 2 ^ w

-- (x >> k) & 1 != 0.
abbrev pub is_set : ℕ → ℕ → Bool
is_set x k = x / 2 ^ k % 2 == 1

-- x | (1 << k).
abbrev pub set_bit : ℕ → ℕ → ℕ
set_bit x k = x + (1 - x / 2 ^ k % 2) * 2 ^ k

-- x & ~(1 << k).
abbrev pub clear_bit : ℕ → ℕ → ℕ
clear_bit x k = x - x / 2 ^ k % 2 * 2 ^ k

-- (x & ~(((1 << w) - 1) << lo)) | (v << lo), for v within w bits.
abbrev pub put_bits : ℕ → ℕ → ℕ → ℕ → ℕ
put_bits x lo w v = x - x / 2 ^ lo % 2 ^ w * 2 ^ lo + v * 2 ^ lo

-- (int64_t)(int32_t)v and (int64_t)(int16_t)v, (int64_t)(int8_t)v, as 64-bit patterns.
abbrev pub sext32 : ℕ → ℕ
sext32 v = if ltb (u32 v) (2 ^ 31) then u32 v else u32 v + (2 ^ 64 - 2 ^ 32)

abbrev pub sext16 : ℕ → ℕ
sext16 v = if ltb (u16 v) (2 ^ 15) then u16 v else u16 v + (2 ^ 64 - 2 ^ 16)

abbrev pub sext8 : ℕ → ℕ
sext8 v = if ltb (u8 v) (2 ^ 7) then u8 v else u8 v + (2 ^ 64 - 2 ^ 8)

-- a < b as int64_t, for patterns below 2 ^ 64: the order of the patterns with the top bit flipped.
abbrev pub slt64 : ℕ → ℕ → Bool
slt64 a b = ltb ((a + 2 ^ 63) % 2 ^ 64) ((b + 2 ^ 63) % 2 ^ 64)

-- ~x in 64 bits.
abbrev pub not64 : ℕ → ℕ
not64 x = 2 ^ 64 - 1 - x % 2 ^ 64
