-- ===== src/Scsi/RoundTrip.antt =====
-- What a WRITE leaves on the disk, and what a READ then gives.
use interp_mips.Prelude.{
  ℕ, ◌+◌, ◌*◌, ◌/◌, ◌%◌, ◌<◌, ◌≤◌, ◌≡◌, refl, sym, ap, ◌∙◌, arith, true, false, ◌||◌, ltb, leb,
  some, ◌<<<◌,
}
use mathlib.Core.Path.{subst}
use interp_mips.Scsi.Chip.{Disk, ph_idle, SgiScsi, block_of, block_read, complete}
use interp_mips.Scsi.Command.{cdb_lba, cdb_blocks, select_and_transfer}
use interp_mips.Scsi.Blocks.{
  bytes_from, bytes_from-agree, filled, filled_at, overlaid, overlaid_at, overlaid_else,
  read_blocks_at, give, taken, give_buffer, taken_all,
}
use interp_mips.Scsi.Transfer.{
  issue, commanded, issue-select, IsProgrammed, commanded-IsProgrammed, lba_of, writing,
  select-write, finish-write, before_status, select-read, reading,
}

module _ (D : Disk) where
  pub record IsWritten (d w : SgiScsi D) (lba blocks : ℕ) (f : ℕ → ℕ) : Type 0 where
    pub idle : w.phase ≡ ph_idle
    pub asks : w.intrq ≡ true
    pub status : w.regs 0x17 ≡ 0x16
    pub good : w.regs 0x0f ≡ 0
    pub cow : w.direct_write ≡ false
    pub held : (k j : ℕ) → k < blocks → j < 512 → block_read D w (lba + k) j ≡ f (k * 512 + j)
    pub kept :
        (x : ℕ) → (ltb x lba || leb (lba + blocks) x) ≡ true → block_read D w x ≡ block_read D d x

  block_read-same :
      (d w : SgiScsi D) (x : ℕ)
      → w.overlay x ≡ d.overlay x
      → w.image ≡ d.image
      → w.nblocks ≡ d.nblocks
      → block_read D w x ≡ block_read D d x
  unfolding block_read
  block_read-same d w x o i n =
      ap (λ b. block_of D b (D.pread w.image x) (leb w.nblocks x)) o
      ∙ ap (λ m. block_of D (d.overlay x) (D.pread m x) (leb w.nblocks x)) i
      ∙ ap (λ k. block_of D (d.overlay x) (D.pread d.image x) (leb k x)) n

  block_read-overlay :
      (w : SgiScsi D) (x : ℕ) (b : ℕ → ℕ) → w.overlay x ≡ some b → block_read D w x ≡ b
  unfolding block_read
  block_read-overlay w x b e = ap (λ o. block_of D o (D.pread w.image x) (leb w.nblocks x)) e

  -- The end of a WRITE of some blocks, from a programmed controller.
  module _ (d q : SgiScsi D) (lba blocks : ℕ) (f : ℕ → ℕ) (idle : d.phase ≡ ph_idle)
      (cow : d.direct_write ≡ false) (p : IsProgrammed D d q 0x2a lba blocks)
      (some_blocks : 0 < blocks) where
    bytes : ℕ
    bytes = cdb_blocks q.regs * 512

    given :
        give D bytes 0 f (select_and_transfer D q)
        ≡ complete D 0x16 (before_status D q (filled bytes 0 f (λ i. 0)) bytes)
    unfolding bytes
    given =
        let pos : 0 < cdb_blocks q.regs = omega (arith, p.blocks_at) in
        ap (give D bytes 0 f) (select-write D q (p.phase ∙ idle) p.dest p.lun pos p.op_at)
        ∙ give_buffer D bytes f (λ i. 0) (writing D q) (omega arith) refl
        ∙ finish-write D q (p.phase ∙ idle) p.dest p.lun pos (filled bytes 0 f (λ i. 0)) bytes
            (p.direct ∙ cow) p.op_at

    abbrev full : ℕ → ℕ
    full = filled (blocks * 512) 0 f (λ i. 0)

    -- The overlay of the result.
    overlay_after :
        (complete D 0x16 (before_status D q (filled bytes 0 f (λ i. 0)) bytes)).overlay
        ≡ overlaid D blocks 0 lba full d.overlay
    unfolding complete bytes
    overlay_after =
        let same : cdb_blocks q.regs * 512 / 512 ≡ blocks = omega (arith, p.blocks_at) in
        ap (λ k. overlaid D k 0 (cdb_lba q.regs) (filled bytes 0 f (λ i. 0)) q.overlay) same
        ∙ ap (λ k. overlaid D blocks 0 (cdb_lba q.regs) (filled (k * 512) 0 f (λ i. 0)) q.overlay)
            p.blocks_at
        ∙ ap (λ k. overlaid D blocks 0 k full q.overlay) p.lba_at
        ∙ ap (overlaid D blocks 0 lba full) p.overlay

    result-IsWritten :
        IsWritten d
          (complete D 0x16 (before_status D q (filled bytes 0 f (λ i. 0)) bytes))
          lba
          blocks
          f
    unfolding complete
    result-IsWritten =
        let w = complete D 0x16 (before_status D q (filled bytes 0 f (λ i. 0)) bytes) in
        record {
          idle = refl;
          asks = refl;
          status = refl;
          good = refl;
          cow = p.direct ∙ cow;
          held = λ k j l u.
              ap (λ b. b j)
                (block_read-overlay w (lba + k) _ (
                  ap (λ o. o (lba + k)) overlay_after
                  ∙ overlaid_at D blocks 0 lba k full d.overlay (omega arith) (omega arith)))
              ∙ filled_at (blocks * 512) 0 (k * 512 + j) f (λ i. 0) (omega arith) (omega arith);
          kept = λ x h.
              block_read-same d w x
                (ap (λ o. o x) overlay_after
                  ∙ overlaid_else D blocks 0 lba x full d.overlay (ground arith))
                p.image p.nblocks;
        }

    pub given-IsWritten :
        IsWritten d (give D (blocks * 512) 0 f (select_and_transfer D q)) lba blocks f
    unfolding bytes
    given-IsWritten =
        let as_given =
          ap (λ k. give D (k * 512) 0 f (select_and_transfer D q)) (sym p.blocks_at) ∙ given in
        subst (λ w. IsWritten d w lba blocks f) (sym as_given) result-IsWritten

  -- What a READ of some blocks gives.
  module _ (d q : SgiScsi D) (lba blocks : ℕ) (idle : d.phase ≡ ph_idle)
      (p : IsProgrammed D d q 0x28 lba blocks) (some_blocks : 0 < blocks) where
    abbrev pub held_at : ℕ → ℕ
    held_at k = block_read D d (lba + k / 512) (k % 512)

    read_back : (k : ℕ) → 0 ≤ k → k < 0 + blocks * 512 → (reading D q).buf k ≡ held_at k
    unfolding block_read
    read_back k l u =
        read_blocks_at D (cdb_blocks q.regs) 0 (cdb_lba q.regs) k _ (λ j. 0) (omega arith)
          (omega (arith, p.blocks_at))
        ∙ ap (λ x. block_read D q (x + k / 512) (k % 512)) p.lba_at
        ∙ ap (λ b. b (k % 512))
            (block_read-same d q (lba + k / 512) (ap (λ o. o (lba + k / 512)) p.overlay) p.image
              p.nblocks)

    pub taken_read :
        taken D (blocks * 512) (select_and_transfer D q) ≡ bytes_from (blocks * 512) 0 held_at
    taken_read =
        let pos : 0 < cdb_blocks q.regs = omega (arith, p.blocks_at) in
        ap (taken D (blocks * 512)) (select-read D q (p.phase ∙ idle) p.dest p.lun pos p.op_at)
        ∙ taken_all D (blocks * 512) 0 (reading D q) (omega (arith, p.blocks_at))
        ∙ bytes_from-agree (blocks * 512) 0 (reading D q).buf held_at read_back

  pub write-IsWritten :
      (a : ℕ → ℕ) (hi low : ℕ) (f : ℕ → ℕ) (d : SgiScsi D)
      → d.phase ≡ ph_idle
      → d.direct_write ≡ false
      → 0 < hi <<< 8 + low
      → IsWritten d
          (give D ((hi <<< 8 + low) * 512) 0 f (issue D 0x2a a hi low d))
          (lba_of D a)
          (hi <<< 8 + low)
          f
  write-IsWritten a hi low f d idle cow h =
      let q = commanded D 0x2a a hi low d in
      subst
        (λ x. IsWritten d (give D ((hi <<< 8 + low) * 512) 0 f x) (lba_of D a) (hi <<< 8 + low) f)
        (sym (issue-select D 0x2a a hi low d))
        (given-IsWritten d q (lba_of D a) (hi <<< 8 + low) f idle cow
          (commanded-IsProgrammed D 0x2a a hi low d) h)

  -- A WRITE of one block or more to the idle SCSI controller, without direct writes,
  -- programmed through the ports and given all its bytes, and then a READ of the same blocks:
  -- the bytes taken are the bytes given, in order.
  pub read-write :
      (a : ℕ → ℕ) (hi low : ℕ) (f : ℕ → ℕ) (d : SgiScsi D)
      → d.phase ≡ ph_idle
      → d.direct_write ≡ false
      → 0 < hi <<< 8 + low
      → let n = (hi <<< 8 + low) * 512 in
        taken D n (issue D 0x28 a hi low (give D n 0 f (issue D 0x2a a hi low d)))
        ≡ bytes_from n 0 f
  read-write a hi low f d idle cow h =
      let n = (hi <<< 8 + low) * 512 in
      let w = give D n 0 f (issue D 0x2a a hi low d) in
      let v = write-IsWritten a hi low f d idle cow h in
      let q = commanded D 0x28 a hi low w in
      ap (taken D n) (issue-select D 0x28 a hi low w)
      ∙ taken_read w q (lba_of D a) (hi <<< 8 + low) v.idle
          (commanded-IsProgrammed D 0x28 a hi low w) h
      ∙ bytes_from-agree n 0 _ f
          (λ k l u. v.held (k / 512) (k % 512) (omega arith) (omega arith) ∙ ap f (omega arith))
