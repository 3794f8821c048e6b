-- ===== src/Hpc/Chain.antt =====
-- The bytes that a chain of descriptors names, and a device that takes them.
use interp_mips.Prelude.{
  ℕ, zero, suc, ◌+◌, ◌%◌, ◌^◌, ◌≡◌, refl, true, false, if◌then◌else◌, ltb, u32, List, [], ◌∷◌,
}
use mathlib.Core.List.{◌++◌, append-nil}
use interp_mips.Hpc.ScsiDma.{ScsiChip, raw, rd_be32, is_eox}

-- The n bytes at an address, and those of the first n descriptors of a chain, to its end.
unfoldable pub bytes_at : (ℕ → ℕ) → ℕ → ℕ → List ℕ
bytes_at bytes a zero = []
bytes_at bytes a (suc n) = bytes (raw a) ∷ bytes_at bytes (u32 (a + 1)) n

unfoldable pub chain_bytes : (ℕ → ℕ) → ℕ → ℕ → List ℕ
chain_bytes bytes zero desc = []
chain_bytes bytes (suc n) desc =
    let bc = rd_be32 bytes (u32 (desc + 4)) in
    bytes_at bytes (rd_be32 bytes desc) (bc % 2 ^ 14)
    ++ (if is_eox bc then [] else chain_bytes bytes n (rd_be32 bytes (u32 (desc + 8))))

pub chain_bytes-last :
    (bytes : ℕ → ℕ) (n desc : ℕ)
    → is_eox (rd_be32 bytes (u32 (desc + 4))) ≡ true
    → chain_bytes bytes (suc n) desc
      ≡ bytes_at bytes (rd_be32 bytes desc) (rd_be32 bytes (u32 (desc + 4)) % 2 ^ 14)
unfolding chain_bytes
chain_bytes-last bytes n desc x =
    rw x
      (append-nil (bytes_at bytes (rd_be32 bytes desc) (rd_be32 bytes (u32 (desc + 4)) % 2 ^ 14)))

pub chain_bytes-next :
    (bytes : ℕ → ℕ) (n desc : ℕ)
    → is_eox (rd_be32 bytes (u32 (desc + 4))) ≡ false
    → chain_bytes bytes (suc n) desc
      ≡ bytes_at bytes (rd_be32 bytes desc) (rd_be32 bytes (u32 (desc + 4)) % 2 ^ 14)
        ++ chain_bytes bytes n (rd_be32 bytes (u32 (desc + 8)))
unfolding chain_bytes
chain_bytes-next bytes n desc x = rw x refl

module _ (S : ScsiChip) where
  open S use {Chip, drq_pending, dma_w, residual, pause_transfer, reset}

  -- The device after it takes the bytes.
  unfoldable pub feed : List ℕ → Chip → Chip
  feed [] c = c
  feed (b ∷ bs) c = feed bs (dma_w c b)

  pub feed-append : (xs ys : List ℕ) (c : Chip) → feed (xs ++ ys) c ≡ feed ys (feed xs c)
  unfolding feed
  feed-append [] ys c = refl
  feed-append (x ∷ xs) ys c = feed-append xs ys (dma_w c x)

  -- A device with bytes left is told that the chain has ended.
  abbrev pub settle : Chip → Chip
  settle c = if ltb 0 (residual c) then pause_transfer c else c

  -- The device asks for each of the bytes in turn.
  unfoldable pub Takes : List ℕ → Chip → Type 0
  Takes [] c = Unit {0}
  Takes (b ∷ bs) c = (drq_pending c ≡ true) × Takes bs (dma_w c b)

  pub Takes-append :
      (xs ys : List ℕ) (c : Chip) → Takes (xs ++ ys) c → Takes xs c × Takes ys (feed xs c)
  unfolding Takes feed
  Takes-append [] ys c t = (tt, t)
  Takes-append (x ∷ xs) ys c t = let r = Takes-append xs ys (dma_w c x) (t.1) in ((t.0, r.0), r.1)
