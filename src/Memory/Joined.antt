-- ===== src/Memory/Joined.antt =====
-- The merges of LWL and LWR of interpret.cc, one after the other.
use interp_mips.Prelude.{ℕ, zero, suc, ◌+◌, ◌-◌, ◌*◌, ◌/◌, ◌%◌, ◌^◌, ◌<◌, ◌≡◌, arith, sext32, ◌<<<◌}
use interp_mips.Memory.Sparse.{read_le, bswap32}
use interp_mips.Memory.Merge.{lwl_merge, lwr_merge}

abbrev pub IsBytes : (ℕ → ℕ) → Type 0
IsBytes b = (i : ℕ) → b i < 2 ^ 8

-- A big-endian word, and the one at an address.
abbrev pub word : ℕ → ℕ → ℕ → ℕ → ℕ
word b0 b1 b2 b3 = b0 <<< 24 + b1 <<< 16 + b2 <<< 8 + b3

abbrev pub word_at : (ℕ → ℕ) → ℕ → ℕ
word_at b a = word (b a) (b (a + 1)) (b (a + 2)) (b (a + 3))

-- The words around an address at each of the four offsets.
module _ (b0 b1 b2 b3 b4 b5 b6 b7 x : ℕ)
    (h : (b0 < 256)
      × (b1 < 256)
      × (b2 < 256)
      × (b3 < 256)
      × (b4 < 256)
      × (b5 < 256)
      × (b6 < 256)
      × (b7 < 256)) where
  join_zero :
      lwr_merge 3 (word b0 b1 b2 b3) (lwl_merge 0 (word b0 b1 b2 b3) x) ≡ sext32 (word b0 b1 b2 b3)
  unfolding lwr_merge
  join_zero = ground arith

  join_one :
      lwr_merge 0 (word b4 b5 b6 b7) (lwl_merge 1 (word b0 b1 b2 b3) x) ≡ sext32 (word b1 b2 b3 b4)
  unfolding lwl_merge lwr_merge
  join_one = ground arith

  join_two :
      lwr_merge 1 (word b4 b5 b6 b7) (lwl_merge 2 (word b0 b1 b2 b3) x) ≡ sext32 (word b2 b3 b4 b5)
  unfolding lwl_merge lwr_merge
  join_two = ground arith

  join_three :
      lwr_merge 2 (word b4 b5 b6 b7) (lwl_merge 3 (word b0 b1 b2 b3) x) ≡ sext32 (word b3 b4 b5 b6)
  unfolding lwl_merge lwr_merge
  join_three = ground arith

module _ (b : ℕ → ℕ) (h : IsBytes b) where
  swapped : (a : ℕ) → bswap32 (read_le 4 b a) ≡ word_at b a
  unfolding read_le
  swapped a = ground (arith, h a, h (a + 1), h (a + 2), h (a + 3))

  bytes_at :
      (a : ℕ)
      → (b a < 256)
        × (b (a + 1) < 256)
        × (b (a + 2) < 256)
        × (b (a + 3) < 256)
        × (b (a + 4) < 256)
        × (b (a + 5) < 256)
        × (b (a + 6) < 256)
        × (b (a + 7) < 256)
  bytes_at a = (h a, h (a + 1), h (a + 2), h (a + 3), h (a + 4), h (a + 5), h (a + 6), h (a + 7))

  -- At each offset k in a word at a, the bytes of two neighbouring words join.
  join_at :
      (k a x : ℕ)
      → k < 4
      → lwr_merge ((k + 3) % 4) (word_at b (a + (k + 3) / 4 * 4)) (lwl_merge k (word_at b a) x)
        ≡ sext32 (word_at b (a + k))
  join_at zero a x q = grind (
    arith,
    join_zero (b a) (b (a + 1)) (b (a + 2)) (b (a + 3)) (b (a + 4)) (b (a + 5)) (b (a + 6))
        (b (a + 7)) x (bytes_at a),
  )
  join_at (suc zero) a x q = grind (
    arith,
    join_one (b a) (b (a + 1)) (b (a + 2)) (b (a + 3)) (b (a + 4)) (b (a + 5)) (b (a + 6))
        (b (a + 7)) x (bytes_at a),
  )
  join_at (suc (suc zero)) a x q = grind (
    arith,
    join_two (b a) (b (a + 1)) (b (a + 2)) (b (a + 3)) (b (a + 4)) (b (a + 5)) (b (a + 6))
        (b (a + 7)) x (bytes_at a),
  )
  join_at (suc (suc (suc zero))) a x q = grind (
    arith,
    join_three (b a) (b (a + 1)) (b (a + 2)) (b (a + 3)) (b (a + 4)) (b (a + 5)) (b (a + 6))
        (b (a + 7)) x (bytes_at a),
  )
  join_at (suc (suc (suc (suc k)))) a x q = omega arith

  -- The two merges at any address, over the aligned words that the memory holds.
  pub join_words :
      (pa x : ℕ)
      → lwr_merge
          ((pa + 3) % 4)
          (bswap32 (read_le 4 b (pa + 3 - (pa + 3) % 4)))
          (lwl_merge (pa % 4) (bswap32 (read_le 4 b (pa - pa % 4))) x)
        ≡ sext32 (word_at b pa)
  join_words pa x =
      rw (swapped (pa + 3 - (pa + 3) % 4), swapped (pa - pa % 4))
        (grind (arith, join_at (pa % 4) (pa - pa % 4) x (omega arith)))
