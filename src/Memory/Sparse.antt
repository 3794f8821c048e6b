-- ===== src/Memory/Sparse.antt =====
-- `sparse_mem`: 2 ^ 32 bytes of memory, the alias of its lowest 512 KB, and the window of the
-- devices, which are a parameter. The cache model is off, as it is by default.
use interp_mips.Prelude.{
  ℕ, zero, suc, ◌+◌, ◌/◌, ◌^◌, Bool, ◌&&◌, if◌then◌else◌, ltb, leb, ◌==◌, bits, ◌<<<◌, u8,
}

-- What is behind the window: a read of some bytes may change a device.
pub record Devices : Type 1 where
  pub Board : Type 0
  pub route_load : Board → ℕ → ℕ → ℕ × Board
  pub route_store : Board → ℕ → ℕ → ℕ → Board

-- A value of n bytes in the order of the host, the low byte first.
unfoldable pub read_le : ℕ → (ℕ → ℕ) → ℕ → ℕ
read_le zero bytes a = 0
read_le (suc n) bytes a = bytes a + read_le n bytes (a + 1) <<< 8

unfoldable pub write_le : ℕ → (ℕ → ℕ) → ℕ → ℕ → ℕ → ℕ
write_le zero bytes a v = bytes
write_le (suc n) bytes a v =
    let rest = write_le n bytes (a + 1) (v / 2 ^ 8) in λ j. if j == a then u8 v else rest j

abbrev pub bswap16 : ℕ → ℕ
bswap16 v = bits v 0 8 <<< 8 + bits v 8 8

abbrev pub bswap32 : ℕ → ℕ
bswap32 v = bits v 0 8 <<< 24 + bits v 8 8 <<< 16 + bits v 16 8 <<< 8 + bits v 24 8

abbrev pub bswap64 : ℕ → ℕ
bswap64 v =
    bits v 0 8 <<< 56
    + bits v 8 8 <<< 48
    + bits v 16 8 <<< 40
    + bits v 24 8 <<< 32
    + bits v 32 8 <<< 24
    + bits v 40 8 <<< 16
    + bits v 48 8 <<< 8
    + bits v 56 8

-- The lowest 512 KB mirror the base of the local memory.
unfoldable pub mc_alias : ℕ → ℕ
mc_alias pa = if ltb pa 0x80000 then pa + 0x08000000 else pa

abbrev pub in_window : ℕ → Bool
in_window pa = leb 0x1f000000 pa && leb pa 0x1fffffff

module _ (V : Devices) where
  open V use {Board, route_load, route_store}

  pub record SparseMem : Type 0 where
    pub bytes : ℕ → ℕ
    pub board : Board
    pub route_devices : Bool

  -- `get<T>`, for T of n bytes.
  unfoldable pub get : SparseMem → ℕ → ℕ → ℕ × SparseMem
  unfolding read_le mc_alias
  get m n pa =
      let (v, b) = route_load m.board pa n in
      if m.route_devices
      then (if in_window pa
          then (v, record m { board = b })
          else (read_le n m.bytes (mc_alias pa), m))
      else (read_le n m.bytes pa, m)

  -- `set<T>`.
  unfoldable pub set : SparseMem → ℕ → ℕ → ℕ → SparseMem
  unfolding write_le mc_alias
  set m n pa v =
      if m.route_devices
      then (if in_window pa
          then record m { board = route_store m.board pa n v }
          else record m { bytes = write_le n m.bytes (mc_alias pa) v })
      else record m { bytes = write_le n m.bytes pa v }
