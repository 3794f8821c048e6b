-- ===== src/Hpc/Lines.antt =====
-- The interrupt controller of sgi_hpc: the live status of its two levels and of the mappable
-- cascade, their masks, and the registers of the IOC2 by their offsets. A byte stands for its bits.
use interp_mips.Prelude.{
  ℕ, ◌+◌, Bool, not, ◌&&◌, ◌||◌, if◌then◌else◌, ◌==◌, u8, is_set, bits, set_bit, clear_bit, update,
  Option, none, some,
}

pub record Ioc2 : Type 0 where
  pub intstat : ℕ
  pub local_status : ℕ → ℕ
  pub local_mask : ℕ → ℕ
  pub cmeimask : ℕ → ℕ
  pub cmepol : ℕ

-- The initial values.
abbrev pub init : Ioc2
init = record {
  intstat = 0;
  local_status = λ i. 0;
  local_mask = λ i. 0;
  cmeimask = λ i. 0;
  cmepol = 0;
}

-- What the other devices answer: the serial controller, the keyboard, SCSI, the memory controller,
-- and the bits of the graphics on local1.
pub record Answers : Type 0 where
  pub scc : Bool
  pub ps2 : Bool
  pub scsi : Bool
  pub mc : Bool
  pub np_bits : ℕ

-- `(a & b) != 0`, for two bytes.
abbrev pub meets : ℕ → ℕ → Bool
meets a b =
    ((is_set a 0 && is_set b 0)
      || (is_set a 1 && is_set b 1)
      || (is_set a 2 && is_set b 2)
      || (is_set a 3 && is_set b 3))
    || ((is_set a 4 && is_set b 4)
        || (is_set a 5 && is_set b 5)
        || (is_set a 6 && is_set b 6)
        || (is_set a 7 && is_set b 7))

unfoldable pub vmeistat_live : Answers → ℕ
vmeistat_live a = (if a.scc then 0x20 else 0) + (if a.ps2 then 0x10 else 0)

abbrev pub assign : Bool → ℕ → ℕ → ℕ
assign b x k = if b then set_bit x k else clear_bit x k

-- The latch of the Ethernet channels, bits 10 and 11 of intstat.
abbrev pub enet_latch : Ioc2 → Bool
enet_latch c = not (bits c.intstat 10 2 == 0)

unfoldable pub local0_live : Ioc2 → Answers → ℕ
unfolding vmeistat_live
local0_live c a =
    let st = assign (enet_latch c) (assign a.scsi (c.local_status 0) 1) 3 in
    let with_mc = if a.mc then set_bit st 4 else st in
    assign (meets (vmeistat_live a) (c.cmeimask 0)) with_mc 7

-- `|` of the status byte and the bits of the graphics, which set bits of a byte.
abbrev pub or_bit : ℕ → ℕ → ℕ → ℕ
or_bit x y k = if is_set y k then set_bit x k else x

abbrev pub or_byte : ℕ → ℕ → ℕ
or_byte x y =
    or_bit
      (or_bit (or_bit (or_bit (or_bit (or_bit (or_bit (or_bit x y 0) y 1) y 2) y 3) y 4) y 5) y 6) y
      7

unfoldable pub local1_live : Ioc2 → Answers → ℕ
unfolding vmeistat_live
local1_live c a =
    let st = or_byte (c.local_status 1) a.np_bits in
    if not (c.cmeimask 1 == 0) && meets (vmeistat_live a) (c.cmeimask 1) then set_bit st 3 else st

unfoldable pub ip2_pending : Ioc2 → Answers → Bool
unfolding local0_live
ip2_pending c a = meets (local0_live c a) (c.local_mask 0)

unfoldable pub ip3_pending : Ioc2 → Answers → Bool
unfolding local1_live
ip3_pending c a = not (c.local_mask 1 == 0) && meets (local1_live c a) (c.local_mask 1)

-- The reads of the interrupt registers, and of the system identity.
unfoldable pub read_ioc2 : Ioc2 → Answers → ℕ → Option ℕ
unfolding local0_live local1_live vmeistat_live
read_ioc2 c a offs =
    if offs == 0x59858
    then some 0x26000000
    else if offs == 0x59883
    then some (local0_live c a)
    else if offs == 0x59887
    then some (c.local_mask 0)
    else if offs == 0x5988b
    then some (local1_live c a)
    else if offs == 0x5988f
    then some (c.local_mask 1)
    else if offs == 0x59893
    then some (vmeistat_live a)
    else if offs == 0x59897
    then some (c.cmeimask 0)
    else if offs == 0x5989b
    then some (c.cmeimask 1)
    else if offs == 0x5989f
    then some c.cmepol
    else none

unfoldable pub write_ioc2 : Ioc2 → ℕ → ℕ → Ioc2
write_ioc2 c offs x =
    if offs == 0x59887
    then record c { local_mask = update c.local_mask 0 (u8 x) }
    else if offs == 0x5988f
    then record c { local_mask = update c.local_mask 1 (u8 x) }
    else if offs == 0x59897
    then record c { cmeimask = update c.cmeimask 0 (u8 x) }
    else if offs == 0x5989b
    then record c { cmeimask = update c.cmeimask 1 (u8 x) }
    else if offs == 0x5989f
    then record c { cmepol = u8 x }
    else c
