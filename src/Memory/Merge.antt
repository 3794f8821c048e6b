-- ===== src/Memory/Merge.antt =====
-- The merges of the unaligned loads and stores: `ma` is the offset in the aligned word, `r` the
-- word in memory in the order of the guest, and `x` the register.
use interp_mips.Prelude.{
  ℕ, ◌+◌, ◌-◌, ◌*◌, ◌%◌, ◌^◌, if◌then◌else◌, ◌==◌, u32, u64, sext32, ◌<<<◌, ◌>>>◌,
}

unfoldable pub lwl_merge : ℕ → ℕ → ℕ → ℕ
lwl_merge ma r x =
    if ma == 0
    then sext32 r
    else if ma == 1
    then sext32 ((r % 2 ^ 24) <<< 8 + x % 2 ^ 8)
    else if ma == 2
    then sext32 ((r % 2 ^ 16) <<< 16 + x % 2 ^ 16)
    else sext32 (u32 ((r % 2 ^ 24) <<< 24) + x % 2 ^ 24)

unfoldable pub lwr_merge : ℕ → ℕ → ℕ → ℕ
lwr_merge ma r x =
    let w = u32 x in
    if ma == 0
    then sext32 (w - w % 2 ^ 8 + r >>> 24)
    else if ma == 1
    then sext32 (w - w % 2 ^ 16 + r >>> 16)
    else if ma == 2
    then sext32 (w - w % 2 ^ 24 + r >>> 8)
    else sext32 r

unfoldable pub ldl_merge : ℕ → ℕ → ℕ → ℕ
ldl_merge ma r x =
    if ma == 0
    then r
    else if ma == 1
    then (r % 2 ^ 56) <<< 8 + x % 2 ^ 8
    else if ma == 2
    then (r % 2 ^ 48) <<< 16 + x % 2 ^ 16
    else if ma == 3
    then (r % 2 ^ 40) <<< 24 + x % 2 ^ 24
    else if ma == 4
    then (r % 2 ^ 32) <<< 32 + x % 2 ^ 32
    else if ma == 5
    then (r % 2 ^ 24) <<< 40 + x % 2 ^ 40
    else if ma == 6
    then (r % 2 ^ 16) <<< 48 + x % 2 ^ 48
    else (r % 2 ^ 8) <<< 56 + x % 2 ^ 56

unfoldable pub ldr_merge : ℕ → ℕ → ℕ → ℕ
ldr_merge ma r x =
    if ma == 0
    then x - x % 2 ^ 8 + r >>> 56
    else if ma == 1
    then x - x % 2 ^ 16 + r >>> 48
    else if ma == 2
    then x - x % 2 ^ 24 + r >>> 40
    else if ma == 3
    then x - x % 2 ^ 32 + r >>> 32
    else if ma == 4
    then x - x % 2 ^ 40 + r >>> 24
    else if ma == 5
    then x - x % 2 ^ 48 + r >>> 16
    else if ma == 6
    then x - x % 2 ^ 56 + r >>> 8
    else r

-- (r & m) | xs, for the mask m of the bits that the store keeps.
unfoldable pub swl_merge : ℕ → ℕ → ℕ → ℕ
swl_merge ma r x = r - r % 2 ^ (8 * (4 - ma)) + u32 x >>> (8 * ma)

unfoldable pub swr_merge : ℕ → ℕ → ℕ → ℕ
swr_merge ma r x = u32 (u32 x <<< (8 * (3 - ma))) + r % 2 ^ (8 * (3 - ma))

unfoldable pub sdl_merge : ℕ → ℕ → ℕ → ℕ
sdl_merge ma r x = r - r % 2 ^ (8 * (8 - ma)) + x >>> (8 * ma)

unfoldable pub sdr_merge : ℕ → ℕ → ℕ → ℕ
sdr_merge ma r x = u64 (x <<< (8 * (7 - ma))) + r % 2 ^ (8 * (7 - ma))
