-- ===== src/Hpc/ScsiDma.antt =====
-- The SCSI DMA of sgi_hpc: a channel, its chain of descriptors in memory, and the pump that walks
-- it. The SCSI controller is a record of its operations. `raw` is the index that `get_raw_ptr` gives
-- with the devices routed. The experiments with the cache model (SPEC_DMA, COHERENT_DMA) and the
-- logs are off, as they are by default.
use interp_mips.Prelude.{
  ℕ, zero, suc, ◌+◌, ◌-◌, ◌%◌, ◌^◌, Bool, true, false, not, ◌&&◌, if◌then◌else◌, ◌==◌, ltb, u32,
  is_set, set_bit, clear_bit, update, ◌<<<◌,
}
use interp_mips.Memory.Sparse.{mc_alias}

pub record ScsiChip : Type 1 where
  pub Chip : Type 0
  pub drq_pending : Chip → Bool
  pub dma_w : Chip → ℕ → Chip
  pub dma_r : Chip → ℕ × Chip
  pub residual : Chip → ℕ
  pub pause_transfer : Chip → Chip
  pub reset : Chip → Chip

pub data DmaState : Type 0 where
  ch_idle : DmaState
  ch_fetch : DmaState
  ch_xfer : DmaState
  ch_desc_done : DmaState

-- `scsi_dma_t`.
pub record Channel : Type 0 where
  pub cbp : ℕ
  pub nbdp : ℕ
  pub bc : ℕ
  pub ctrl : ℕ
  pub count : ℕ
  pub dmacfg : ℕ
  pub piocfg : ℕ
  pub active : Bool
  pub to_device : Bool
  pub state : DmaState

abbrev pub raw : ℕ → ℕ
raw pa = mc_alias (u32 pa)

-- A big-endian word of the memory.
unfoldable pub rd_be32 : (ℕ → ℕ) → ℕ → ℕ
rd_be32 bytes pa =
    let p = raw pa in bytes p <<< 24 + bytes (p + 1) <<< 16 + bytes (p + 2) <<< 8 + bytes (p + 3)

-- Flags of a descriptor: end of the chain, and an interrupt at its end.
abbrev pub is_eox : ℕ → Bool
is_eox bc = is_set bc 31

abbrev pub is_xie : ℕ → Bool
is_xie bc = is_set bc 29

unfoldable pub fetch_chain : (ℕ → ℕ) → Channel → Channel
unfolding rd_be32
fetch_chain bytes d =
    let bc = rd_be32 bytes (u32 (d.nbdp + 4)) in
    record d {
      cbp = rd_be32 bytes d.nbdp;
      bc = bc;
      nbdp = rd_be32 bytes (u32 (d.nbdp + 8));
      count = bc % 2 ^ 14;
    }

-- A channel after a write of its control register: bit 5 protects the activity, bit 2 is the
-- direction, and bit 3 stops the channel.
unfoldable pub take_control : ℕ → Channel → Channel
take_control x d =
    let kept = clear_bit (clear_bit x 0) 5 in
    let armed =
      if is_set x 5
      then record d { ctrl = if d.active then set_bit (clear_bit kept 4) 4 else clear_bit kept 4 }
      else record d { ctrl = kept; active = is_set kept 4 } in
    let started = record armed {
      to_device = is_set armed.ctrl 2;
      state = if not d.active && armed.active then ch_fetch else d.state;
    } in
    if is_set x 3
    then record started { active = false; ctrl = clear_bit started.ctrl 4; state = ch_idle }
    else started

module _ (S : ScsiChip) where
  open S use {Chip, drq_pending, dma_w, dma_r, residual, pause_transfer, reset}

  -- A channel with the memory, the controller and the interrupt status.
  pub record Pump : Type 0 where
    pub chan : Channel
    pub bytes : ℕ → ℕ
    pub chip : Chip
    pub intstat : ℕ

  -- One byte between the memory and the controller.
  unfoldable pub move_byte : Pump → Pump
  move_byte p =
      let d = p.chan in
      let next = record d { cbp = u32 (d.cbp + 1); count = d.count - 1 } in
      if d.to_device
      then record p { chan = next; chip = dma_w p.chip (p.bytes (raw d.cbp)) }
      else record p {
        chan = next;
        bytes = update p.bytes (raw d.cbp) ((dma_r p.chip).0);
        chip = (dma_r p.chip).1;
      }

  -- The loop over the bytes of a descriptor, of which n are left.
  unfoldable pub xfer_loop : ℕ → Pump → Pump
  unfolding move_byte
  xfer_loop zero p = p
  xfer_loop (suc n) p =
      let rest = xfer_loop n (move_byte p) in if drq_pending p.chip then rest else p

  abbrev pub in_state : DmaState → Pump → Pump
  in_state t p = record p { chan = record (p.chan) { state = t } }

  -- The end of a descriptor of channel `ch`.
  unfoldable pub desc_done : ℕ → Pump → Pump
  desc_done ch p =
      let d = p.chan in
      let q = record p {
        intstat = if is_xie d.bc then set_bit p.intstat (8 + ch) else p.intstat;
      } in
      if is_eox d.bc
      then record q {
        chan = record d { active = false; ctrl = clear_bit d.ctrl 4; state = ch_idle };
        chip = if ltb 0 (residual p.chip) then pause_transfer p.chip else p.chip;
      }
      else in_state ch_fetch q

  -- One round of the pump, by the state of the channel: whether it made progress.
  unfoldable pub pump_round : ℕ → DmaState → Pump → Bool × Pump
  unfolding fetch_chain xfer_loop desc_done
  pump_round ch ch_idle p = (false, p)
  pump_round ch ch_fetch p =
      (true, in_state ch_xfer (record p { chan = fetch_chain p.bytes p.chan }))
  pump_round ch ch_xfer p =
      let q = xfer_loop p.chan.count p in
      if q.chan.count == 0 then (true, in_state ch_desc_done q) else (false, q)
  pump_round ch ch_desc_done p = (true, desc_done ch p)

  -- `scsi_run_dma`, on fuel.
  unfoldable pub run_dma : ℕ → ℕ → Pump → Pump
  unfolding pump_round
  run_dma zero ch p = p
  run_dma (suc n) ch p =
      let r = pump_round ch p.chan.state p in
      let rest = run_dma n ch (r.1) in if p.chan.active then (if r.0 then rest else r.1) else p

  -- A write of the control register of a channel; the pump runs if the channel is active then.
  unfoldable pub write_ctrl : ℕ → ℕ → ℕ → Pump → Pump
  unfolding run_dma take_control
  write_ctrl fuel ch x p =
      let q = record p {
        chan = take_control x p.chan;
        chip = if is_set x 6 then reset p.chip else p.chip;
      } in
      let pumped = run_dma fuel ch q in if q.chan.active then pumped else q
