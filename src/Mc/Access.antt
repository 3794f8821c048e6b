-- ===== src/Mc/Access.antt =====
-- The writes of sgi_mc: `dma_write`, the serial EEPROM, and `write`. The result has the registers,
-- the world that a transfer has changed, and whether `irq_poke` is raised.
use interp_mips.Prelude.{
  ℕ, ◌+◌, ◌-◌, ◌*◌, ◌/◌, ◌%◌, ◌^◌, Bool, false, ◌||◌, if◌then◌else◌, ◌==◌, ltb, u8, u32, bits,
  is_set, update, Option, none, some, ◌<<<◌,
}
use interp_mips.Cpu.{Outcome, ok, exits, aborts, host_fault}
use interp_mips.Memory.Sparse.{Devices}
use interp_mips.Mc.Registers.{SgiMc, slot, in_dma_tlb}
use interp_mips.Mc.Dma.{Graphics, World, dma_perform}

abbrev pub write_dma_tlb : SgiMc → ℕ → ℕ → SgiMc
write_dma_tlb c r x =
    let i = (r - 0x180) / 16 in
    if is_set (r - 0x180) 3
    then record c { dma_tlb_lo = update c.dma_tlb_lo i x }
    else record c { dma_tlb_hi = update c.dma_tlb_hi i x }

-- The writes of a DMA register that start no transfer.
unfoldable pub dma_store : SgiMc → ℕ → ℕ → Option SgiMc
dma_store c r x =
    if in_dma_tlb r
    then some (write_dma_tlb c r x)
    else if r == 0x150
    then some (record c { dma_gio_mask = x })
    else if r == 0x158
    then some (record c { dma_gio_sub = x })
    else if r == 0x160
    then some (record c { dma_cause = x; dma_irq = if x == 0 then false else c.dma_irq })
    else if r == 0x168
    then some (record c { dma_ctl = x })
    else if r == 0x2000 || r == 0x2008
    then some (record c { dma_memadr = x })
    else if r == 0x2010
    then some (record c { dma_count = bits c.dma_count 16 16 <<< 16 + x % 2 ^ 16; dma_size = x })
    else if r == 0x2018
    then some (record c { dma_count = bits x 16 10 <<< 16 + c.dma_count % 2 ^ 16; dma_stride = x })
    else if r == 0x2020
    then some (record c { dma_gio_adr = x })
    else if r == 0x2030
    then some (record c { dma_mode = x })
    else if r == 0x2038
    then some (record c { dma_count = x })
    else none

-- One bit of the serial EEPROM, clocked in where bits 1 and 2 of the register are set. A byte past
-- the 256 of `eerom` is written out of its bounds.
unfoldable pub clock_bit : SgiMc → ℕ → Outcome SgiMc
clock_bit c x =
    let b = u8 (c.byte * 2 + bits x 3 1) in
    let clocked = record c { eeprom_ctrl = x; byte = b; nbits = u32 (c.nbits + 1) } in
    if bits x 1 2 == 3
    then (if u32 (c.nbits + 1) == 8
        then (if ltb c.cbyte 256
            then ok (record clocked {
              eerom = update c.eerom c.cbyte b;
              cbyte = u32 (c.cbyte + 1);
              nbits = 0;
              byte = 0;
            })
            else host_fault)
        else ok clocked)
    else ok (record c { eeprom_ctrl = x })

-- The registers that `write` knows itself, but for the EEPROM.
unfoldable pub store_register : SgiMc → ℕ → ℕ → SgiMc
store_register c offs x =
    if offs == 0x0 || offs == 0x4 || offs == 0xc
    then record c { cpu_control = update c.cpu_control (bits offs 3 1) x }
    else if offs == 0x2c
    then record c { rpss_divider = x }
    else if offs == 0x84
    then record c { gio64_arb_param = x }
    else if offs == 0xc4 || offs == 0xcc
    then record c { memcfg = update c.memcfg (bits offs 3 1) x }
    else if offs == 0xd4
    then record c { cpu_mem_access_config = x }
    else if offs == 0xdc
    then record c { gio_mem_access_config = x }
    else if offs == 0xec
    then record c { cpu_error_status = 0 }
    else if offs == 0xfc
    then record c { gio_error_status = 0 }
    else c

module _ (V : Devices) (G : Graphics) where
  abbrev pub Written : Type 0
  Written = SgiMc × World V G × Bool

  -- The slots that may start a transfer.
  unfoldable pub dma_start : SgiMc → ℕ → ℕ → World V G → Option Written
  unfolding dma_perform
  dma_start c r x w =
      if r == 0x2028
      then some (dma_perform V G (record c { dma_gio_adr = x }) w)
      else if r == 0x2040
      then some (if is_set x 0 then dma_perform V G c w else (c, w, false))
      else if r == 0x2070
      then some (
          dma_perform V G
            (record c {
              dma_gio_adr = x;
              dma_size = 0x0001000c;
              dma_stride = 0x00010000;
              dma_count = 0x0001000c;
              dma_mode = 0x00000028;
            })
            w)
      else none

  abbrev by_store : Option SgiMc → World V G → Option Written → Option Written
  by_store (some c) w other = some (c, w, false)
  by_store none w other = other

  -- `dma_write`.
  unfoldable pub dma_write : SgiMc → ℕ → ℕ → World V G → Option Written
  unfolding dma_store dma_start
  dma_write c offs x w = by_store (dma_store c (slot offs) x) w (dma_start c (slot offs) x w)

  abbrev with_world : World V G → Outcome SgiMc → Outcome Written
  with_world w (ok c) = ok (c, w, false)
  with_world w exits = exits
  with_world w aborts = aborts
  with_world w host_fault = host_fault

  abbrev by_dma : Option Written → Outcome Written → Outcome Written
  by_dma (some r) other = ok r
  by_dma none other = other

  unfoldable pub write : SgiMc → ℕ → ℕ → World V G → Outcome Written
  unfolding dma_write clock_bit store_register
  write c offs x w =
      by_dma (dma_write c offs x w)
        (with_world w (if offs == 0x30 then clock_bit c x else ok (store_register c offs x)))
