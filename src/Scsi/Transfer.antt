-- ===== src/Scsi/Transfer.antt =====
-- A WRITE and a READ of blocks, as the driver programs them through the ports.
use interp_mips.Prelude.{
  ℕ, ◌+◌, ◌*◌, ◌/◌, ◌<◌, ◌≡◌, refl, ap, arith, true, false, ◌==◌, update, List, [], ◌∷◌, ◌<<<◌,
}
use interp_mips.Scsi.Chip.{Disk, ph_idle, SgiScsi, finish, complete}
use interp_mips.Scsi.Command.{cdb_lba, cdb_blocks, busy, read_blocks, select_and_transfer, pio_w}
use interp_mips.Scsi.Blocks.{overlaid, write_blocks-overlay, going_out, coming_in}

module _ (D : Disk) where
  abbrev pub pokes : List ℕ → SgiScsi D → SgiScsi D
  pokes [] d = d
  pokes (b ∷ bs) d = pokes bs (pio_w D 1 b d)

  -- The driver's writes: the CDB from register 3 on, unit 0, target 1; and the command.
  abbrev pub set_up : ℕ → (ℕ → ℕ) → ℕ → ℕ → SgiScsi D → SgiScsi D
  set_up op a hi low d =
      let cdb = op ∷ 0 ∷ a 3 ∷ a 2 ∷ a 1 ∷ a 0 ∷ 0 ∷ hi ∷ low ∷ 0 ∷ [] in
      let with_cdb = pokes cdb (pio_w D 0 0x03 d) in
      let with_lun = pokes (0 ∷ []) (pio_w D 0 0x0f with_cdb) in
      pio_w D 0 0x18 (pokes (1 ∷ []) (pio_w D 0 0x15 with_lun))

  abbrev pub issue : ℕ → (ℕ → ℕ) → ℕ → ℕ → SgiScsi D → SgiScsi D
  issue op a hi low d = pio_w D 1 0x08 (set_up op a hi low d)

  module _ (q : SgiScsi D) where
    abbrev pub writing : SgiScsi D
    writing = record (busy D q) {
      tgt_status = 0;
      wr_lba = cdb_lba q.regs;
      size = cdb_blocks q.regs * 512;
      drq = true;
    }

    -- The end of a WRITE whose buffer holds b, up to the status.
    abbrev pub before_status : (ℕ → ℕ) → ℕ → SgiScsi D
    before_status b i = record (going_out D b i writing) {
      overlay = overlaid D (cdb_blocks q.regs * 512 / 512) 0 (cdb_lba q.regs) b q.overlay;
      phase = ph_idle;
      drq = false;
    }

    abbrev pub reading : SgiScsi D
    reading =
        let r = record (busy D q) { tgt_status = 0 } in
        record r {
          buf = read_blocks D (cdb_blocks q.regs) 0 (cdb_lba q.regs) r (λ k. 0);
          size = cdb_blocks q.regs * 512;
          drq = true;
        }

  module _ (q : SgiScsi D) (idle : q.phase ≡ ph_idle) (dest : q.regs 0x15 ≡ 1)
      (lun : q.regs 0x0f ≡ 0) (some_blocks : 0 < cdb_blocks q.regs) where
    pub select-write :
        q.regs 3 ≡ 0x2a → select_and_transfer D q ≡ going_out D (λ i. 0) 0 (writing q)
    unfolding select_and_transfer
    select-write op =
        let n : (cdb_blocks q.regs * 512 == 0) ≡ false = ground arith in
        simp (idle, dest, lun, op, n)

    -- The end of a WRITE whose buffer holds b: the blocks in the overlay, and all else of the disk
    -- as it was.
    module _ (b : ℕ → ℕ) (i : ℕ) (cow : q.direct_write ≡ false) (op : q.regs 3 ≡ 0x2a) where
      pub finish-write :
          finish D (going_out D b i (writing q)) ≡ complete D 0x16 (before_status q b i)
      unfolding finish
      finish-write = simp op (
          ap (λ d. complete D 0x16 (record d { phase = ph_idle; drq = false }))
            (write_blocks-overlay D (cdb_blocks q.regs * 512 / 512) 0 (going_out D b i (writing q))
              cow))

    pub select-read : q.regs 3 ≡ 0x28 → select_and_transfer D q ≡ coming_in D 0 (reading q)
    unfolding select_and_transfer
    select-read op =
        let n : (cdb_blocks q.regs == 0) ≡ false = ground arith in simp (idle, dest, lun, op, n)

  abbrev pub commanded : ℕ → (ℕ → ℕ) → ℕ → ℕ → SgiScsi D → SgiScsi D
  commanded op a hi low d =
      let q = set_up op a hi low d in record q { regs = update q.regs 0x18 0x08 }

  pub issue-select :
      (op : ℕ) (a : ℕ → ℕ) (hi low : ℕ) (d : SgiScsi D)
      → issue op a hi low d ≡ select_and_transfer D (commanded op a hi low d)
  unfolding pio_w
  issue-select op a hi low d = refl

  -- The registers hold the command, and the disk is as before.
  pub record IsProgrammed (d q : SgiScsi D) (op lba blocks : ℕ) : Type 0 where
    pub phase : q.phase ≡ d.phase
    pub op_at : q.regs 3 ≡ op
    pub dest : q.regs 0x15 ≡ 1
    pub lun : q.regs 0x0f ≡ 0
    pub lba_at : cdb_lba q.regs ≡ lba
    pub blocks_at : cdb_blocks q.regs ≡ blocks
    pub overlay : q.overlay ≡ d.overlay
    pub image : q.image ≡ d.image
    pub nblocks : q.nblocks ≡ d.nblocks
    pub direct : q.direct_write ≡ d.direct_write

  abbrev pub lba_of : (ℕ → ℕ) → ℕ
  lba_of a = a 3 <<< 24 + a 2 <<< 16 + a 1 <<< 8 + a 0

  pub commanded-IsProgrammed :
      (op : ℕ) (a : ℕ → ℕ) (hi low : ℕ) (d : SgiScsi D)
      → IsProgrammed d (commanded op a hi low d) op (lba_of a) (hi <<< 8 + low)
  unfolding pio_w
  commanded-IsProgrammed op a hi low d = record {
    phase = refl;
    op_at = refl;
    dest = refl;
    lun = refl;
    lba_at = refl;
    blocks_at = refl;
    overlay = refl;
    image = refl;
    nblocks = refl;
    direct = refl;
  }
