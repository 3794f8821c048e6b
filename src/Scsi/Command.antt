-- ===== src/Scsi/Command.antt =====
-- The commands of the disk and the ports of the processor, of sgi_scsi.cc.
use interp_mips.Prelude.{
  ℕ, zero, suc, ◌+◌, ◌-◌, ◌*◌, ◌%◌, ◌^◌, Bool, true, false, not, ◌&&◌, ◌||◌, if◌then◌else◌, ◌==◌,
  ltb, leb, u32, is_set, bits, set_bit, clear_bit, update, ◌<<<◌, List, [], ◌∷◌,
}
use interp_mips.Scsi.Chip.{
  Disk, ph_data_in, wd_own_id, wd_cdb, wd_target_lun, wd_command_phase, wd_dest_id, wd_scsi_status,
  wd_command, wd_aux_status, aux_busy, aux_int, SgiScsi, reset, block_read, finish, begin_data_in,
  begin_data_out, is_data,
}

abbrev pub disk_target : ℕ
disk_target = 1

-- `memcpy(f + o, bs, …)`.
abbrev pub put_list : (ℕ → ℕ) → ℕ → List ℕ → ℕ → ℕ
put_list f o [] = f
put_list f o (b ∷ bs) = put_list (update f o b) (o + 1) bs

abbrev pub vendor : List ℕ
vendor = b'S' ∷ b'G' ∷ b'I' ∷ b' ' ∷ b' ' ∷ b' ' ∷ b' ' ∷ b' ' ∷ []

abbrev pub product : List ℕ
product =
    b'i' ∷ b'n' ∷ b't' ∷ b'e' ∷ b'r' ∷ b'p' ∷ b'_' ∷ b'm' ∷ b'i' ∷ b'p' ∷ b's' ∷ b' ' ∷ b'd' ∷ b'i'
    ∷ b's' ∷ b'k' ∷ []

abbrev pub inquiry : ℕ → ℕ
inquiry =
    put_list
      (put_list (put_list (put_list (λ i. 0) 0 (0 ∷ 0 ∷ 2 ∷ 2 ∷ 31 ∷ [])) 8 vendor) 16 product) 32
      (b'1' ∷ b'.' ∷ b'0' ∷ b' ' ∷ [])

-- The last block and the size of one, big-endian.
abbrev pub capacity : ℕ → ℕ → ℕ
capacity nblocks =
    let last = if nblocks == 0 then 0 else u32 (nblocks - 1) in
    put_list (λ i. 0) 0
      (bits last 24 8 ∷ bits last 16 8 ∷ bits last 8 8 ∷ bits last 0 8 ∷ 0 ∷ 0 ∷ 2 ∷ 0 ∷ [])

-- `alloc < n ? alloc : n`.
abbrev pub at_most : ℕ → ℕ → ℕ
at_most n alloc = if ltb alloc n then alloc else n

-- The address and the number of blocks of a READ or a WRITE.
abbrev pub cdb_lba : (ℕ → ℕ) → ℕ
cdb_lba r = r 5 <<< 24 + r 6 <<< 16 + r 7 <<< 8 + r 8

abbrev pub cdb_blocks : (ℕ → ℕ) → ℕ
cdb_blocks r = r 10 <<< 8 + r 11

-- A block into a buffer at o.
abbrev pub put_block : (ℕ → ℕ) → ℕ → (ℕ → ℕ) → ℕ → ℕ
put_block buf o b k = if leb o k && ltb k (o + 512) then b (k - o) else buf k

module _ (D : Disk) where
  abbrev pub Scsi : Type 0
  Scsi = SgiScsi D

  -- The blocks of a READ from i on, of which n are left, put into the buffer.
  unfoldable pub read_blocks : ℕ → ℕ → ℕ → Scsi → (ℕ → ℕ) → ℕ → ℕ
  unfolding block_read
  read_blocks zero i lba d buf = buf
  read_blocks (suc n) i lba d buf =
      read_blocks n (i + 1) lba d (put_block buf (i * 512) (block_read D d (lba + i)))

  unfoldable pub read10 : Scsi → Scsi
  unfolding read_blocks finish
  read10 d =
      let len = cdb_blocks d.regs in
      let q = record d {
        buf = read_blocks len 0 (cdb_lba d.regs) d (λ k. 0);
        size = len * 512;
        pos = 0;
      } in
      if len == 0 then finish D q else record q { phase = ph_data_in; drq = true }

  -- The command that the first byte of the CDB names.
  unfoldable pub decode_cdb : ℕ → Scsi → Scsi
  unfolding finish begin_data_in begin_data_out read10
  decode_cdb op d =
      let alloc = d.regs 7 in
      if op == 0x00 || op == 0x1b
      then finish D d
      else if op == 0x12
      then begin_data_in D inquiry (at_most 36 alloc) d
      else if op == 0x03
      then begin_data_in D d.sense (at_most 18 alloc) d
      else if op == 0x25
      then begin_data_in D (capacity d.nblocks) 8 d
      else if op == 0x1a
      then begin_data_in D (update (λ i. 0) 0 3) (at_most 4 alloc) d
      else if op == 0x15
      then begin_data_out D alloc d
      else if op == 0x28
      then read10 d
      else if op == 0x2a
      then begin_data_out D (cdb_blocks d.regs * 512) (record d { wr_lba = cdb_lba d.regs })
      else finish D d

  -- CHECK CONDITION, for a logical unit that is not there.
  abbrev pub no_lun : Scsi → Scsi
  no_lun d = record d {
    sense = update (update (update (update (update d.sense 0 0x70) 2 0x05) 7 0x0a) 12 0x25) 13 0x00;
    tgt_status = 0x02;
  }

  -- A data phase that a pause left in the middle.
  unfoldable pub in_the_middle : Scsi → Bool
  in_the_middle d = is_data D d.phase && (ltb 0 d.pos && ltb d.pos d.size)

  abbrev pub timed_out : Scsi → Scsi
  timed_out d = record d {
    regs =
        update
          (update (update d.regs wd_aux_status (aux_int (d.regs wd_aux_status))) wd_scsi_status
            0x42)
          wd_command_phase 0x00;
    intrq = true;
    poked = true;
  }

  abbrev pub busy : Scsi → Scsi
  busy d = record d { regs = update d.regs wd_aux_status (aux_busy (d.regs wd_aux_status)) }

  unfoldable pub select_and_transfer : Scsi → Scsi
  unfolding decode_cdb finish in_the_middle
  select_and_transfer d =
      let q = record (busy d) { tgt_status = 0 } in
      let op = d.regs wd_cdb in
      if in_the_middle d
      then record (busy d) { drq = true }
      else if not (d.regs wd_dest_id % 8 == disk_target)
      then timed_out d
      else if not (d.regs wd_target_lun % 8 == 0) && not (op == 0x03)
      then finish D (no_lun q)
      else decode_cdb op q

  -- A reset by command reports whether the advanced features are on.
  unfoldable pub command_reset : Scsi → Scsi
  unfolding reset
  command_reset d =
      let q = reset D d in
      record q {
        regs =
            update
              (update q.regs wd_scsi_status (if is_set (q.regs wd_own_id) 3 then 0x01 else 0x00))
              wd_aux_status (set_bit (q.regs wd_aux_status) 7);
        intrq = true;
        poked = true;
      }

  unfoldable pub exec_command : ℕ → Scsi → Scsi
  unfolding command_reset select_and_transfer
  exec_command cc d =
      if cc == 0x00
      then command_reset d
      else if cc == 0x08 || cc == 0x09
      then select_and_transfer d
      else d

  -- Port 0 selects a register, port 1 writes it and goes on to the next; the command register
  -- starts a command.
  unfoldable pub pio_w : ℕ → ℕ → Scsi → Scsi
  unfolding exec_command
  pio_w port v d =
      if port == 0
      then record d { sasr = v % 32 }
      else if d.sasr == wd_command
      then exec_command (v % 2 ^ 7) (record d { regs = update d.regs wd_command v })
      else record d { regs = update d.regs d.sasr v; sasr = (d.sasr + 1) % 32 }

  -- Port 0 reads the auxiliary status, port 1 a register; a read of the status drops the interrupt.
  unfoldable pub pio_r : ℕ → Scsi → ℕ × Scsi
  pio_r port d =
      let next = record d { sasr = (d.sasr + 1) % 32 } in
      if port == 0
      then ((if d.intrq then 0x80 else 0) + (if d.drq then 0x01 else 0), d)
      else if d.sasr == wd_scsi_status
      then (
        d.regs wd_scsi_status,
        record next {
          intrq = false;
          regs = update d.regs wd_aux_status (clear_bit (d.regs wd_aux_status) 7);
        },
      )
      else (d.regs d.sasr, next)
