-- ===== src/Scsi/Blocks.antt =====
-- What the loops over the blocks and the bytes of a transfer do.
use interp_mips.Prelude.{
  ℕ, zero, suc, ◌+◌, ◌-◌, ◌*◌, ◌/◌, ◌%◌, ◌<◌, ◌≤◌, ◌≡◌, refl, ap, ◌∙◌, arith, true, false, ◌&&◌,
  ◌||◌, if◌then◌else◌, ◌==◌, ltb, leb, update, Option, some, List, [], ◌∷◌, Bool-cases, inl, inr,
}
use interp_mips.Scsi.Chip.{
  Disk, ph_data_in, ph_data_out, SgiScsi, block_read, block_write, write_blocks, give_byte, dma_w,
  take_byte, dma_r, finish,
}
use interp_mips.Scsi.Command.{read_blocks}

-- The n bytes of a buffer from i on.
abbrev pub bytes_from : ℕ → ℕ → (ℕ → ℕ) → List ℕ
bytes_from zero i f = []
bytes_from (suc n) i f = f i ∷ bytes_from n (i + 1) f

pub bytes_from-agree :
    (n i : ℕ) (f g : ℕ → ℕ)
    → ((k : ℕ) → i ≤ k → k < i + n → f k ≡ g k)
    → bytes_from n i f ≡ bytes_from n i g
bytes_from-agree zero i f g h = refl
bytes_from-agree (suc n) i f g h =
    let e = h i (omega arith) (omega arith) in
    let rest = bytes_from-agree n (i + 1) f g (λ k l u. h k (omega arith) (omega arith)) in cc

-- A buffer after n bytes of f from i on.
abbrev pub filled : ℕ → ℕ → (ℕ → ℕ) → (ℕ → ℕ) → ℕ → ℕ
filled zero i f b = b
filled (suc n) i f b = filled n (i + 1) f (update b i (f i))

filled_below : (n i k : ℕ) (f b : ℕ → ℕ) → k < i → filled n i f b k ≡ b k
filled_below zero i k f b l = refl
filled_below (suc n) i k f b l =
    filled_below n (i + 1) k f (update b i (f i)) (omega arith) ∙ ground arith

pub filled_at : (n i k : ℕ) (f b : ℕ → ℕ) → i ≤ k → k < i + n → filled n i f b k ≡ f k
filled_at zero i k f b l u = absurd (omega arith)
filled_at (suc n) i k f b l u = elim (Bool-cases (k == i)) [
  | inl e ↦ filled_below n (i + 1) k f (update b i (f i)) (ground arith) ∙ ground arith
  | inr e ↦ filled_at n (i + 1) k f (update b i (f i)) (ground arith) (omega arith)
]

module _ (D : Disk) where
  -- The overlay after n blocks of a buffer, from block i of a transfer at lba on.
  abbrev pub overlaid : ℕ → ℕ → ℕ → (ℕ → ℕ) → (ℕ → Option (ℕ → ℕ)) → ℕ → Option (ℕ → ℕ)
  overlaid zero i lba buf o = o
  overlaid (suc n) i lba buf o =
      overlaid n (i + 1) lba buf (update o (lba + i) (some (λ j. buf (i * 512 + j))))

  pub write_blocks-overlay :
      (n i : ℕ) (d : SgiScsi D)
      → d.direct_write ≡ false
      → write_blocks D n i d ≡ record d { overlay = overlaid n i d.wr_lba d.buf d.overlay }
  unfolding write_blocks block_write
  write_blocks-overlay zero i d c = refl
  write_blocks-overlay (suc n) i d c =
      ap
        (λ t. write_blocks D n (i + 1) (
          if t
          then (if ltb (d.wr_lba + i) d.nblocks
              then record d { image = D.pwrite d.image (d.wr_lba + i) (λ j. d.buf (i * 512 + j)) }
              else d)
          else record d {
            overlay = update d.overlay (d.wr_lba + i) (some (λ j. d.buf (i * 512 + j)));
          }))
        c
      ∙ write_blocks-overlay n (i + 1) _ c

  overlaid_below :
      (n i lba x : ℕ) (buf : ℕ → ℕ) (o : ℕ → Option (ℕ → ℕ))
      → x < lba + i
      → overlaid n i lba buf o x ≡ o x
  overlaid_below zero i lba x buf o l = refl
  overlaid_below (suc n) i lba x buf o l =
      overlaid_below n (i + 1) lba x buf _ (omega arith) ∙ ground arith

  -- A block of the transfer is the one of the buffer.
  pub overlaid_at :
      (n i lba k : ℕ) (buf : ℕ → ℕ) (o : ℕ → Option (ℕ → ℕ))
      → i ≤ k
      → k < i + n
      → overlaid n i lba buf o (lba + k) ≡ some (λ j. buf (k * 512 + j))
  overlaid_at zero i lba k buf o l u = absurd (omega arith)
  overlaid_at (suc n) i lba k buf o l u = elim (Bool-cases (k == i)) [
    | inl e ↦ overlaid_below n (i + 1) lba (lba + k) buf _ (ground arith) ∙ ground arith
    | inr e ↦ overlaid_at n (i + 1) lba k buf _ (ground arith) (omega arith)
  ]

  -- Every other block is as before.
  pub overlaid_else :
      (n i lba x : ℕ) (buf : ℕ → ℕ) (o : ℕ → Option (ℕ → ℕ))
      → (ltb x (lba + i) || leb (lba + i + n) x) ≡ true
      → overlaid n i lba buf o x ≡ o x
  overlaid_else zero i lba x buf o h = refl
  overlaid_else (suc n) i lba x buf o h =
      overlaid_else n (i + 1) lba x buf _ (ground arith) ∙ ground arith

  read_blocks_below :
      (n i lba k : ℕ) (d : SgiScsi D) (buf : ℕ → ℕ)
      → k < i * 512
      → read_blocks D n i lba d buf k ≡ buf k
  unfolding read_blocks
  read_blocks_below zero i lba k d buf l = refl
  read_blocks_below (suc n) i lba k d buf l =
      read_blocks_below n (i + 1) lba k d _ (omega arith) ∙ ground arith

  -- A byte of a read is that of its block.
  pub read_blocks_at :
      (n i lba k : ℕ) (d : SgiScsi D) (buf : ℕ → ℕ)
      → i * 512 ≤ k
      → k < (i + n) * 512
      → read_blocks D n i lba d buf k ≡ block_read D d (lba + k / 512) (k % 512)
  unfolding read_blocks
  read_blocks_at zero i lba k d buf l u = absurd (omega arith)
  read_blocks_at (suc n) i lba k d buf l u = elim (Bool-cases (k / 512 == i)) [
    | inl e ↦
        let q : k / 512 ≡ i = ground arith in
        let r : k - i * 512 ≡ k % 512 = omega arith in
        let inside : (leb (i * 512) k && ltb k (i * 512 + 512)) ≡ true = ground arith in
        read_blocks_below n (i + 1) lba k d _ (omega arith) ∙ rw (inside, r, ← q) refl
    | inr e ↦
        let past : (i + 1) * 512 ≤ k = ground arith in
        read_blocks_at n (i + 1) lba k d _ past (omega arith)
  ]

  -- The bytes of f from i on given to the port, and n bytes taken from it.
  abbrev pub give : ℕ → ℕ → (ℕ → ℕ) → SgiScsi D → SgiScsi D
  give zero i f d = d
  give (suc n) i f d = give n (i + 1) f (dma_w D (f i) d)

  abbrev pub taken : ℕ → SgiScsi D → List ℕ
  taken zero d = []
  taken (suc n) d = (dma_r D d).0 ∷ taken n ((dma_r D d).1)

  abbrev pub going_out : (ℕ → ℕ) → ℕ → SgiScsi D → SgiScsi D
  going_out b i d = record d { buf = b; pos = i; phase = ph_data_out }

  pub give-all :
      (n i : ℕ) (f b : ℕ → ℕ) (d : SgiScsi D)
      → d.size ≡ i + suc n
      → give (suc n) i f (going_out b i d)
        ≡ finish D (going_out (filled (suc n) i f b) (i + suc n) d)
  unfolding dma_w give_byte
  give-all zero i f b d e =
      let first : leb d.size i ≡ false = ground arith in
      let last : leb d.size (i + 1) ≡ true = ground arith in rw (first, last) refl
  give-all (suc n) i f b d e =
      let first : leb d.size i ≡ false = ground arith in
      let more : leb d.size (i + 1) ≡ false = ground arith in
      let sum : i + 1 + suc n ≡ i + suc (suc n) = omega arith in
      rw (first, more) (give-all n (i + 1) f (update b i (f i)) d (omega arith))
      ∙ ap (λ k. finish D (going_out (filled (suc (suc n)) i f b) k d)) sum

  -- A whole buffer.
  pub give_buffer :
      (n : ℕ) (f b : ℕ → ℕ) (d : SgiScsi D)
      → 0 < n
      → d.size ≡ n
      → give n 0 f (going_out b 0 d) ≡ finish D (going_out (filled n 0 f b) n d)
  give_buffer zero f b d h e = absurd (omega arith)
  give_buffer (suc n) f b d h e =
      let sum : 0 + suc n ≡ suc n = omega arith in
      give-all n 0 f b d (omega arith)
      ∙ ap (λ k. finish D (going_out (filled (suc n) 0 f b) k d)) sum

  abbrev pub coming_in : ℕ → SgiScsi D → SgiScsi D
  coming_in i d = record d { pos = i; phase = ph_data_in }

  pub taken_all :
      (n i : ℕ) (d : SgiScsi D) → d.size ≡ i + n → taken n (coming_in i d) ≡ bytes_from n i d.buf
  unfolding dma_r take_byte
  taken_all zero i d e = refl
  taken_all (suc zero) i d e = let first : leb d.size i ≡ false = ground arith in rw first refl
  taken_all (suc (suc n)) i d e =
      let first : leb d.size i ≡ false = ground arith in
      let more : leb d.size (i + 1) ≡ false = ground arith in
      rw (first, more) (ap (λ bs. d.buf i ∷ bs) (taken_all (suc n) (i + 1) d (omega arith)))
