-- ===== src/Examples/Storage.antt =====
-- Runs of the SCSI controller.
use interp_mips.Prelude.{
  ℕ, ◌+◌, ◌*◌, ◌%◌, ◌^◌, ◌≡◌, refl, arith, true, false, update, some, [], ◌∷◌, ◌<<<◌,
}
use interp_mips.Memory.Sparse.{mc_alias}
use interp_mips.Hpc.ScsiDma.{ch_idle, Channel, Pump, rd_be32, write_ctrl}
use interp_mips.Hpc.Pump.{chain_ends}
use interp_mips.Hpc.Chain.{bytes_at, chain_bytes}
use interp_mips.Scsi.Dma.{length, list_byte, scsi_chip, write_ctrl-IsWritten}
use interp_mips.Scsi.Chip
use interp_mips.Scsi.Chip.{Disk, SgiScsi}
use interp_mips.Scsi.Command.{inquiry}
use interp_mips.Scsi.Blocks.{bytes_from, give, taken}
use interp_mips.Scsi.Transfer.{issue, lba_of}
use interp_mips.Scsi.RoundTrip.{IsWritten, read-write}

abbrev plain_disk : Disk
plain_disk = record {
  Image = ℕ → ℕ → ℕ;
  pread = λ im lba. some (im lba);
  pwrite = λ im lba b. update im lba b;
}

abbrev chip : SgiScsi plain_disk
chip = Chip.init plain_disk (λ lba j. 0) false 100

-- Block 0x102, and the bytes 0, 1, 2, …
abbrev cdb_address : ℕ → ℕ
cdb_address = update (update (λ i. 0) 0 2) 1 1

abbrev counting : ℕ → ℕ
counting k = k % 2 ^ 8

-- The head of the data of an INQUIRY.
inquiry_bytes : bytes_from 10 0 inquiry ≡ 0 ∷ 0 ∷ 2 ∷ 2 ∷ 31 ∷ 0 ∷ 0 ∷ 0 ∷ b'S' ∷ b'G' ∷ []
inquiry_bytes = refl

read-write_example :
    taken plain_disk ((0 <<< 8 + 2) * 512) (
      issue plain_disk 0x28 cdb_address 0 2 (
        give plain_disk
          ((0 <<< 8 + 2) * 512)
          0
          counting
          (issue plain_disk 0x2a cdb_address 0 2 chip)))
    ≡ bytes_from ((0 <<< 8 + 2) * 512) 0 counting
read-write_example = read-write plain_disk cdb_address 0 2 counting chip refl refl (omega arith)

-- A chain of one descriptor at 0x08000100, the last, of the 512 bytes from 0x08001000 on.
abbrev dma_memory : ℕ → ℕ
dma_memory =
    update
      (update (update (update (update counting 0x08000100 8) 0x08000101 0) 0x08000102 0x10)
        0x08000103 0)
      0x08000104 0x80

abbrev with_count : ℕ → ℕ
with_count = update (update (update dma_memory 0x08000105 0) 0x08000106 2) 0x08000107 0

abbrev channel : Channel
channel = record {
  cbp = 0;
  nbdp = 0x08000100;
  bc = 0;
  ctrl = 0;
  count = 0;
  dmacfg = 0;
  piocfg = 0;
  active = false;
  to_device = false;
  state = ch_idle;
}

abbrev writing_pump : Pump (scsi_chip plain_disk)
writing_pump = record {
  chan = channel;
  bytes = with_count;
  chip = issue plain_disk 0x2a cdb_address 0 1 chip;
  intstat = 0;
}

chain-length : length (chain_bytes with_count 1 0x08000100) ≡ (0 <<< 8 + 1) * 512
unfolding chain_bytes bytes_at rd_be32 mc_alias
chain-length = refl

with_count-chain_ends : chain_ends 1 with_count 0x08000100 ≡ true
unfolding rd_be32 mc_alias
with_count-chain_ends = refl

write_ctrl-IsWritten_example :
    IsWritten plain_disk chip
      (write_ctrl (scsi_chip plain_disk) 3 0 0x14 writing_pump).chip
      (lba_of plain_disk cdb_address)
      (0 <<< 8 + 1)
      (list_byte (chain_bytes with_count 1 0x08000100))
write_ctrl-IsWritten_example =
    write_ctrl-IsWritten plain_disk cdb_address 0 1 chip 0 1 3 0x14 writing_pump refl (omega arith)
      refl chain-length refl refl refl refl refl refl refl with_count-chain_ends (omega arith)
