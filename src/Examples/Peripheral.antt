-- ===== src/Examples/Peripheral.antt =====
-- Runs of the peripheral controller of the board.
use interp_mips.Prelude.{ℕ, ◌≡◌, refl, arith, Bool, true, false, ◌||◌, update, List, [], ◌∷◌}
use mathlib.Core.List.{◌++◌}
use interp_mips.Memory.Sparse.{mc_alias}
use interp_mips.Hpc.Lines
use interp_mips.Hpc.Lines.{Ioc2, Answers, ip2_pending}
use interp_mips.Hpc.Sources.{
  scsi_to_ip2, enet_to_ip2, mc_to_ip2, mapped_to_ip2, ip2_pending-eq-sources,
}
use interp_mips.Hpc.Timer.{Counter2}
use interp_mips.Hpc.ScsiDma.{
  ScsiChip, ch_idle, ch_fetch, Channel, Pump, rd_be32, run_dma, write_ctrl,
}
use interp_mips.Hpc.Pump.{chain_ends, is_resting, run_dma-IsResting}
use interp_mips.Hpc.Chain.{bytes_at, chain_bytes, Takes}
use interp_mips.Hpc.Fed.{IsFed, write_ctrl-IsFed}

-- The SCSI controller asks, and its bit of the mask is set.
abbrev scsi_on : Ioc2
scsi_on = record Lines.init { local_mask = λ i. 2 }

abbrev scsi_asks : Answers
scsi_asks = record { scc = false; ps2 = false; scsi = true; mc = false; np_bits = 0 }

scsi_reaches_ip2 : ip2_pending scsi_on scsi_asks ≡ true
unfolding ip2_pending
scsi_reaches_ip2 = refl

ip2_pending-eq-sources_example : ip2_pending scsi_on scsi_asks ≡ (
    scsi_to_ip2 scsi_on scsi_asks
    || enet_to_ip2 scsi_on
    || mc_to_ip2 scsi_on scsi_asks
    || mapped_to_ip2 scsi_on scsi_asks)
ip2_pending-eq-sources_example = ip2_pending-eq-sources scsi_on scsi_asks refl

abbrev counter : Counter2
counter = record {
  load = 0;
  count_at_load = 0;
  latch = 0;
  wr_phase = 0;
  rd_phase = 0;
  loading = false;
}

-- A device that takes every byte, and one that takes none; both keep what they took.
abbrev taker : Bool → ScsiChip
taker ready = record {
  Chip = List ℕ;
  drq_pending = λ c. ready;
  dma_w = λ c b. c ++ (b ∷ []);
  dma_r = λ c. (0, c);
  residual = λ c. 0;
  pause_transfer = λ c. c;
  reset = λ c. [];
}

-- One descriptor at 0x08000100, the last, of the two bytes at 0x08000010.
abbrev memory : ℕ → ℕ
memory =
    update
      (update
        (update (update (update (update (λ a. 0) 0x08000100 8) 0x08000103 0x10) 0x08000104 0x80)
          0x08000107 2)
        0x08000010 7)
      0x08000011 9

abbrev pub channel : Channel
channel = record {
  cbp = 0;
  nbdp = 0x08000100;
  bc = 0;
  ctrl = 0;
  count = 0;
  dmacfg = 0;
  piocfg = 0;
  active = false;
  to_device = false;
  state = ch_idle;
}

abbrev idle : (ready : Bool) → Pump (taker ready)
idle ready = record { chan = channel; bytes = memory; chip = []; intstat = 0 }

abbrev fetching : Pump (taker false)
fetching = record (idle false) {
  chan = record channel { active = true; to_device = true; state = ch_fetch };
}

memory-chain_ends : chain_ends 1 memory 0x08000100 ≡ true
unfolding rd_be32 mc_alias
memory-chain_ends = refl

run_dma-IsResting_example : is_resting (taker false) (run_dma (taker false) 3 0 fetching) ≡ true
run_dma-IsResting_example =
    run_dma-IsResting (taker false) 0 1 3 fetching refl refl refl memory-chain_ends (omega arith)

memory-chain_bytes : chain_bytes memory 1 0x08000100 ≡ 7 ∷ 9 ∷ []
unfolding chain_bytes bytes_at rd_be32 mc_alias
memory-chain_bytes = refl

memory-Takes : Takes (taker true) (chain_bytes memory 1 0x08000100) []
unfolding Takes chain_bytes bytes_at rd_be32 mc_alias
memory-Takes = (refl, (refl, tt))

write_ctrl-IsFed_example :
    IsFed
      (taker true)
      (idle true)
      (write_ctrl (taker true) 3 0 0x14 (idle true))
      (chain_bytes memory 1 0x08000100)
write_ctrl-IsFed_example =
    write_ctrl-IsFed (taker true) 0 1 3 0x14 (idle true) refl refl refl refl refl memory-chain_ends
      (omega arith) memory-Takes
