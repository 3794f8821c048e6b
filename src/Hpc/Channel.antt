-- ===== src/Hpc/Channel.antt =====
-- The registers of a SCSI DMA channel of sgi_hpc, by their offsets with bit 13, the channel, taken
-- out. A word reaches a handler with its bytes swapped, and is swapped back there.
use interp_mips.Prelude.{
  ℕ, ◌+◌, ◌%◌, ◌^◌, if◌then◌else◌, ◌==◌, is_set, bits, set_bit, clear_bit, ◌<<<◌,
}
use interp_mips.Memory.Sparse.{bswap32}
use interp_mips.Hpc.ScsiDma.{ScsiChip, Channel, Pump, write_ctrl}

-- The number of the channel and the register, of an offset from 0x10000 to 0x13fff.
abbrev pub channel_of : ℕ → ℕ
channel_of offs = if is_set offs 13 then 1 else 0

abbrev pub register_of : ℕ → ℕ
register_of offs = clear_bit offs 13

-- The live count under the flags of the descriptor.
abbrev pub live_count : Channel → ℕ
live_count d = d.count % 2 ^ 14 + bits d.bc 14 18 <<< 14

module _ (S : ScsiChip) where
  -- A read of the control register reports the interrupt of channel `ch` and clears it.
  unfoldable pub read_ctrl : ℕ → Pump S → ℕ × Pump S
  read_ctrl ch p =
      if is_set p.intstat (8 + ch)
      then (set_bit p.chan.ctrl 0, record p { intstat = clear_bit p.intstat (8 + ch) })
      else (p.chan.ctrl, p)

  unfoldable pub read_register : ℕ → ℕ → Pump S → ℕ × Pump S
  unfolding read_ctrl
  read_register ch n p =
      let d = p.chan in
      if n == 0x10000
      then (d.cbp, p)
      else if n == 0x10004
      then (d.nbdp, p)
      else if n == 0x11000
      then (live_count d, p)
      else if n == 0x11004
      then read_ctrl ch p
      else if n == 0x11010
      then (d.dmacfg, p)
      else if n == 0x11014
      then (d.piocfg, p)
      else (0, p)

  unfoldable pub read_channel : ℕ → Pump S → ℕ × Pump S
  unfolding read_register bswap32
  read_channel offs p =
      let r = read_register (channel_of offs) (register_of offs) p in (bswap32 (r.0), r.1)

  unfoldable pub write_register : ℕ → ℕ → ℕ → ℕ → Pump S → Pump S
  unfolding write_ctrl
  write_register fuel ch n x p =
      let d = p.chan in
      let ctrl = write_ctrl S fuel ch x p in
      if n == 0x10004
      then record p { chan = record d { nbdp = x } }
      else if n == 0x11000
      then record p { chan = record d { bc = x } }
      else if n == 0x11010
      then record p { chan = record d { dmacfg = x } }
      else if n == 0x11014
      then record p { chan = record d { piocfg = x } }
      else if n == 0x11004
      then ctrl
      else p

  unfoldable pub write_channel : ℕ → ℕ → ℕ → Pump S → Pump S
  unfolding write_register bswap32
  write_channel fuel offs x p =
      write_register fuel (channel_of offs) (register_of offs) (bswap32 x) p
