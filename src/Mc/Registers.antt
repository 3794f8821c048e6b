-- ===== src/Mc/Registers.antt =====
-- The registers of sgi_mc, their values at the start, and the reads.
use interp_mips.Prelude.{
  ℕ, ◌-◌, ◌/◌, Bool, false, ◌&&◌, ◌||◌, if◌then◌else◌, ◌==◌, leb, u32, bits, is_set, clear_bit,
  Option, none, some, ◌<<<◌,
}
use interp_mips.Memory.Sparse.{bswap32}

-- `nbits`, `eerom`, `byte` and `cbyte` are the globals of sgi_mc.cc.
pub record SgiMc : Type 0 where
  pub eeprom_ctrl : ℕ
  pub cpu_error_status : ℕ
  pub gio_error_status : ℕ
  pub cpu_mem_access_config : ℕ
  pub gio_mem_access_config : ℕ
  pub gio64_arb_param : ℕ
  pub rpss_divider : ℕ
  pub rpss_counter : ℕ
  pub cpu_control : ℕ → ℕ
  pub memcfg : ℕ → ℕ
  pub dma_gio_mask : ℕ
  pub dma_gio_sub : ℕ
  pub dma_cause : ℕ
  pub dma_ctl : ℕ
  pub dma_tlb_hi : ℕ → ℕ
  pub dma_tlb_lo : ℕ → ℕ
  pub dma_memadr : ℕ
  pub dma_size : ℕ
  pub dma_stride : ℕ
  pub dma_gio_adr : ℕ
  pub dma_mode : ℕ
  pub dma_count : ℕ
  pub dma_run : ℕ
  pub dma_irq : Bool
  pub nbits : ℕ
  pub eerom : ℕ → ℕ
  pub byte : ℕ
  pub cbyte : ℕ

-- The constructor, for the two bank configurations, which have defaults of 0x2320 and 0.
abbrev pub init : ℕ → ℕ → SgiMc
init cfg0 cfg1 = record {
  eeprom_ctrl = 0;
  cpu_error_status = 0;
  gio_error_status = 0;
  cpu_mem_access_config = 0;
  gio_mem_access_config = 0;
  gio64_arb_param = 0;
  rpss_divider = 0x104;
  rpss_counter = 0;
  cpu_control = λ i. 0;
  memcfg = λ i. if i == 0 then bswap32 (u32 (cfg0 <<< 16)) else bswap32 (u32 (cfg1 <<< 16));
  dma_gio_mask = 0;
  dma_gio_sub = 0;
  dma_cause = 0;
  dma_ctl = 0;
  dma_tlb_hi = λ i. 0;
  dma_tlb_lo = λ i. 0;
  dma_memadr = 0;
  dma_size = 0;
  dma_stride = 0;
  dma_gio_adr = 0;
  dma_mode = 0;
  dma_count = 0;
  dma_run = 0;
  dma_irq = false;
  nbits = 0;
  eerom = λ i. 0;
  byte = 0;
  cbyte = 0;
}

abbrev pub sys_id : ℕ
sys_id = 0x13000000

-- `offs & ~4`: the slot that both words of a register stand for.
abbrev pub slot : ℕ → ℕ
slot offs = clear_bit offs 2

abbrev pub in_dma_tlb : ℕ → Bool
in_dma_tlb r = leb 0x180 r && leb r 0x1b8

-- `dma_read` of a slot: the value, where the register is one of the DMA engine's.
unfoldable pub read_slot : SgiMc → ℕ → Option ℕ
read_slot c r =
    let i = (r - 0x180) / 16 in
    if in_dma_tlb r
    then some (if is_set (r - 0x180) 3 then c.dma_tlb_lo i else c.dma_tlb_hi i)
    else if r == 0x150
    then some c.dma_gio_mask
    else if r == 0x158
    then some c.dma_gio_sub
    else if r == 0x160
    then some c.dma_cause
    else if r == 0x168
    then some c.dma_ctl
    else if r == 0x2000 || r == 0x2008
    then some c.dma_memadr
    else if r == 0x2010
    then some c.dma_size
    else if r == 0x2018
    then some c.dma_stride
    else if r == 0x2020 || r == 0x2028
    then some c.dma_gio_adr
    else if r == 0x2030
    then some c.dma_mode
    else if r == 0x2038
    then some c.dma_count
    else if r == 0x2040
    then some 0
    else if r == 0x2048
    then some c.dma_run
    else none

unfoldable pub dma_read : SgiMc → ℕ → Option ℕ
unfolding read_slot
dma_read c offs = read_slot c (slot offs)

abbrev pub or_else : Option ℕ → ℕ → ℕ
or_else (some x) y = x
or_else none y = y

-- The registers that `read` knows itself, at the instruction count `icnt`.
unfoldable pub read_rest : ℕ → SgiMc → ℕ → ℕ
read_rest icnt c offs =
    if offs == 0x0 || offs == 0x4 || offs == 0x8 || offs == 0xc
    then c.cpu_control (bits offs 3 1)
    else if offs == 0xc4 || offs == 0xcc
    then c.memcfg (bits offs 3 1)
    else if offs == 0x84
    then c.gio64_arb_param
    else if offs == 0xd4
    then c.cpu_mem_access_config
    else if offs == 0xdc
    then c.gio_mem_access_config
    else if offs == 0x1c
    then sys_id
    else if offs == 0x30
    then 0x10
    else if offs == 0x1004
    then u32 (icnt / 10)
    else 0

unfoldable pub read : ℕ → SgiMc → ℕ → ℕ
unfolding dma_read read_rest
read icnt c offs = or_else (dma_read c offs) (read_rest icnt c offs)
