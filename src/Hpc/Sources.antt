-- ===== src/Hpc/Sources.antt =====
-- From a device to the processor's IP2: the sources that reach it through the masks.
use interp_mips.Prelude.{
  ℕ, ◌≡◌, arith, Bool, true, false, ◌&&◌, ◌||◌, if◌then◌else◌, is_set, set_bit,
}
use interp_mips.Hpc.Lines.{
  Ioc2, Answers, assign, meets, vmeistat_live, enet_latch, local0_live, ip2_pending,
}

-- The sources, each with the mask bits that it goes through.
abbrev pub scsi_to_ip2 : Ioc2 → Answers → Bool
scsi_to_ip2 c a = a.scsi && is_set (c.local_mask 0) 1

abbrev pub enet_to_ip2 : Ioc2 → Bool
enet_to_ip2 c = (is_set c.intstat 10 || is_set c.intstat 11) && is_set (c.local_mask 0) 3

abbrev pub mc_to_ip2 : Ioc2 → Answers → Bool
mc_to_ip2 c a = a.mc && is_set (c.local_mask 0) 4

abbrev pub mapped_to_ip2 : Ioc2 → Answers → Bool
mapped_to_ip2 c a =
    ((a.scc && is_set (c.cmeimask 0) 5) || (a.ps2 && is_set (c.cmeimask 0) 4))
    && is_set (c.local_mask 0) 7

vmeistat_meets :
    (a : Answers) (m : ℕ)
    → meets (vmeistat_live a) m ≡ ((a.scc && is_set m 5) || (a.ps2 && is_set m 4))
unfolding vmeistat_live
vmeistat_meets a m = ground arith

enet_latch_lem : (c : Ioc2) → enet_latch c ≡ (is_set c.intstat 10 || is_set c.intstat 11)
enet_latch_lem c = ground arith

-- The status of local0, and its bits, for any four sources.
four_bits : (s e m l : Bool) → ℕ
four_bits s e m l =
    let st = assign e (assign s 0 1) 3 in
    let with_mc = if m then set_bit st 4 else st in assign l with_mc 7

four_meets :
    (s e m l : Bool) (k : ℕ)
    → meets (four_bits s e m l) k
      ≡ ((s && is_set k 1) || (e && is_set k 3) || (m && is_set k 4) || (l && is_set k 7))
unfolding four_bits
four_meets true true true true k = ground arith
four_meets true true true false k = ground arith
four_meets true true false true k = ground arith
four_meets true true false false k = ground arith
four_meets true false true true k = ground arith
four_meets true false true false k = ground arith
four_meets true false false true k = ground arith
four_meets true false false false k = ground arith
four_meets false true true true k = ground arith
four_meets false true true false k = ground arith
four_meets false true false true k = ground arith
four_meets false true false false k = ground arith
four_meets false false true true k = ground arith
four_meets false false true false k = ground arith
four_meets false false false true k = ground arith
four_meets false false false false k = ground arith

-- With no status stored for local0, the interrupt controller drives IP2 exactly where one of
-- these asks and its mask bits let it through: SCSI by bit 1, the latched Ethernet channels by
-- bit 3, the memory controller by bit 4, and the serial controller or the keyboard by bit 5 or
-- 4 of the mappable mask and bit 7.
pub ip2_pending-eq-sources :
    (c : Ioc2) (a : Answers)
    → c.local_status 0 ≡ 0
    → ip2_pending c a ≡ (scsi_to_ip2 c a || enet_to_ip2 c || mc_to_ip2 c a || mapped_to_ip2 c a)
unfolding ip2_pending local0_live four_bits
ip2_pending-eq-sources c a z =
    rw (z, ← vmeistat_meets a (c.cmeimask 0), ← enet_latch_lem c)
      (four_meets a.scsi (enet_latch c) a.mc (meets (vmeistat_live a) (c.cmeimask 0))
        (c.local_mask 0))
