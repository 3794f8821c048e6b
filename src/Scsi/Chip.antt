-- ===== src/Scsi/Chip.antt =====
-- The SCSI controller with its disk, `sgi_scsi` (sgi_scsi.hh, sgi_scsi.cc): the register file, the
-- data phase and the blocks. A buffer and a block are functions of the index, a buffer with its
-- size. The image is a parameter: a block read from it, or nothing where pread comes short, and a
-- write. The logs (SCSIDBG, SCSIHASH, SCSIICNT) are off.
use interp_mips.Prelude.{
  ℕ, zero, suc, ◌+◌, ◌-◌, ◌*◌, ◌/◌, Bool, true, false, if◌then◌else◌, ◌==◌, ltb, leb, set_bit,
  clear_bit, update, Option, none, some,
}

pub record Disk : Type 1 where
  pub Image : Type 0
  pub pread : Image → ℕ → Option (ℕ → ℕ)
  pub pwrite : Image → ℕ → (ℕ → ℕ) → Image

pub data Phase : Type 0 where
  ph_idle : Phase
  ph_data_in : Phase
  ph_data_out : Phase

-- The indices of the registers.
abbrev pub wd_own_id : ℕ
wd_own_id = 0x00

abbrev pub wd_cdb : ℕ
wd_cdb = 0x03

abbrev pub wd_target_lun : ℕ
wd_target_lun = 0x0f

abbrev pub wd_command_phase : ℕ
wd_command_phase = 0x10

abbrev pub wd_dest_id : ℕ
wd_dest_id = 0x15

abbrev pub wd_scsi_status : ℕ
wd_scsi_status = 0x17

abbrev pub wd_command : ℕ
wd_command = 0x18

abbrev pub wd_aux_status : ℕ
wd_aux_status = 0x1f

-- The auxiliary status with a command in progress, and with an interrupt and none in progress.
abbrev pub aux_busy : ℕ → ℕ
aux_busy a = set_bit (set_bit a 4) 5

abbrev pub aux_int : ℕ → ℕ
aux_int a = set_bit (clear_bit (clear_bit a 4) 5) 7

-- `regs[0x12] = regs[0x13] = regs[0x14] = 0`.
abbrev pub no_count : (ℕ → ℕ) → ℕ → ℕ
no_count r = update (update (update r 0x14 0) 0x13 0) 0x12 0

module _ (D : Disk) where
  open D use {Image, pread, pwrite}

  -- `poked` is the processor's irq_poke.
  pub record SgiScsi : Type 0 where
    pub image : Image
    pub direct_write : Bool
    pub nblocks : ℕ
    pub regs : ℕ → ℕ
    pub sasr : ℕ
    pub phase : Phase
    pub buf : ℕ → ℕ
    pub size : ℕ
    pub pos : ℕ
    pub drq : Bool
    pub intrq : Bool
    pub poked : Bool
    pub wr_lba : ℕ
    pub sense : ℕ → ℕ
    pub tgt_status : ℕ
    pub overlay : ℕ → Option (ℕ → ℕ)

  -- The controller at an image of n blocks, with no delta.
  abbrev pub init : Image → Bool → ℕ → SgiScsi
  init im direct n = record {
    image = im;
    direct_write = direct;
    nblocks = n;
    regs = λ i. 0;
    sasr = 0;
    phase = ph_idle;
    buf = λ i. 0;
    size = 0;
    pos = 0;
    drq = false;
    intrq = false;
    poked = false;
    wr_lba = 0;
    sense = update (update (λ i. 0) 0 0x70) 7 0x0a;
    tgt_status = 0;
    overlay = λ lba. none;
  }

  unfoldable pub reset : SgiScsi → SgiScsi
  reset d = record d {
    sasr = 0;
    pos = 0;
    drq = false;
    intrq = false;
    phase = ph_idle;
    size = 0;
    regs = update d.regs wd_aux_status 0;
  }

  -- A block: the overlay wins, and what is past the end or comes short is zero.
  unfoldable pub block_of : Option (ℕ → ℕ) → Option (ℕ → ℕ) → Bool → ℕ → ℕ
  block_of (some b) im past = b
  block_of none (some b) past = if past then (λ j. 0) else b
  block_of none none past = λ j. 0

  unfoldable pub block_read : SgiScsi → ℕ → ℕ → ℕ
  unfolding block_of
  block_read d lba = block_of (d.overlay lba) (pread d.image lba) (leb d.nblocks lba)

  unfoldable pub block_write : ℕ → (ℕ → ℕ) → SgiScsi → SgiScsi
  block_write lba b d =
      if d.direct_write
      then (if ltb lba d.nblocks then record d { image = pwrite d.image lba b } else d)
      else record d { overlay = update d.overlay lba (some b) }

  -- The blocks of the buffer from i on, of which n are left.
  unfoldable pub write_blocks : ℕ → ℕ → SgiScsi → SgiScsi
  unfolding block_write
  write_blocks zero i d = d
  write_blocks (suc n) i d =
      write_blocks n (i + 1) (block_write (d.wr_lba + i) (λ j. d.buf (i * 512 + j)) d)

  unfoldable pub complete : ℕ → SgiScsi → SgiScsi
  complete status d = record d {
    regs =
        update
          (no_count (
            update (update (update d.regs wd_scsi_status status) wd_target_lun d.tgt_status)
              wd_command_phase 0x60))
          wd_aux_status (aux_int (d.regs wd_aux_status));
    intrq = true;
    poked = true;
  }

  -- What the end of a data phase writes, by the phase.
  unfoldable pub drained : Phase → SgiScsi → SgiScsi
  unfolding write_blocks
  drained ph_data_out d = if d.regs wd_cdb == 0x2a then write_blocks (d.size / 512) 0 d else d
  drained ph_data_in d = d
  drained ph_idle d = d

  unfoldable pub finish : SgiScsi → SgiScsi
  unfolding drained complete
  finish d = complete 0x16 (record (drained d.phase d) { phase = ph_idle; drq = false })

  unfoldable pub begin_data_in : (ℕ → ℕ) → ℕ → SgiScsi → SgiScsi
  unfolding finish
  begin_data_in p n d =
      let q = record d { buf = p; size = n; pos = 0 } in
      if n == 0 then finish q else record q { phase = ph_data_in; drq = true }

  unfoldable pub begin_data_out : ℕ → SgiScsi → SgiScsi
  unfolding finish
  begin_data_out n d =
      let q = record d { buf = λ i. 0; size = n; pos = 0 } in
      if n == 0 then finish q else record q { phase = ph_data_out; drq = true }

  abbrev pub is_out : Phase → Bool
  is_out ph_data_out = true
  is_out _ = false

  abbrev pub is_data : Phase → Bool
  is_data ph_idle = false
  is_data _ = true

  unfoldable pub pause_transfer : SgiScsi → SgiScsi
  pause_transfer d = record d {
    drq = false;
    regs =
        update
          (no_count (
            update (update d.regs wd_scsi_status (if is_out d.phase then 0x48 else 0x49))
              wd_command_phase 0x46))
          wd_aux_status (aux_int (d.regs wd_aux_status));
    intrq = true;
    poked = true;
  }

  unfoldable pub residual : SgiScsi → ℕ
  residual d = if is_data d.phase then d.size - d.pos else 0

  -- The port of the DMA, by the phase.
  unfoldable pub give_byte : Phase → ℕ → SgiScsi → SgiScsi
  unfolding finish
  give_byte ph_data_out v d =
      let q = record d { buf = update d.buf d.pos v; pos = d.pos + 1 } in
      if leb d.size d.pos then d else if leb d.size (d.pos + 1) then finish q else q
  give_byte ph_data_in v d = d
  give_byte ph_idle v d = d

  unfoldable pub dma_w : ℕ → SgiScsi → SgiScsi
  unfolding give_byte
  dma_w v d = give_byte d.phase v d

  unfoldable pub take_byte : Phase → SgiScsi → ℕ × SgiScsi
  unfolding finish
  take_byte ph_data_in d =
      let q = record d { pos = d.pos + 1 } in
      if leb d.size d.pos
      then (0, d)
      else (d.buf d.pos, if leb d.size (d.pos + 1) then finish q else q)
  take_byte ph_data_out d = (0, d)
  take_byte ph_idle d = (0, d)

  unfoldable pub dma_r : SgiScsi → ℕ × SgiScsi
  unfolding take_byte
  dma_r d = take_byte d.phase d
