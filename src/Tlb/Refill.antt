-- ===== src/Tlb/Refill.antt =====
-- The TLB exceptions of interpret.cc, and the entry that a refill handler writes.
use interp_mips.Prelude.{
  ℕ, ◌+◌, ◌*◌, ◌/◌, ◌%◌, ◌^◌, ◌<◌, ◌≡◌, refl, arith, Bool, true, false, not, ◌&&◌, if◌then◌else◌,
  u32, bits, sext32, bit_and, not64, ◌>>>◌, bit_and_cut, bit_and-zero, bit_and_high_mask,
  bit_and-lt,
}
use interp_mips.Cpu.{
  State, TlbEntry, cpr0_cause, cpr0_context, cpr0_badvaddr, cpr0_entryhi, cpr0_xcontext, cpr0_epc,
  sr_exl, sr_erl, sr_bev,
}
use interp_mips.Exception.{restart_pc}
use interp_mips.Tlb.Fault.{raise_tlb}
use interp_mips.Tlb.Entry.{entry_matches, pair_mask}
use interp_mips.Tlb.Page.{vpn_mask_lem}

-- The registers that the refill handler reads, after a fault at `va` in `s`.
pub record IsStaged (va : ℕ) (s t : State) : Type 0 where
  pub badvaddr : t.cpr0_64 cpr0_badvaddr ≡ va
  pub region : bits (t.cpr0_64 cpr0_entryhi) 62 2 ≡ bits va 62 2
  pub vpn2 : bits (t.cpr0_64 cpr0_entryhi) 13 27 ≡ bits va 13 27
  pub asid : bits (t.cpr0_64 cpr0_entryhi) 0 8 ≡ bits (s.cpr0_64 cpr0_entryhi) 0 8
  pub context_vpn2 : bits (t.cpr0_64 cpr0_context) 4 19 ≡ bits va 13 19
  pub context_base : t.cpr0_64 cpr0_context >>> 23 ≡ s.cpr0_64 cpr0_context >>> 23
  pub xcontext_vpn2 : bits (t.cpr0_64 cpr0_xcontext) 4 27 ≡ bits va 13 27
  pub xcontext_region : bits (t.cpr0_64 cpr0_xcontext) 31 2 ≡ bits va 62 2
  pub xcontext_base : t.cpr0_64 cpr0_xcontext >>> 33 ≡ s.cpr0_64 cpr0_xcontext >>> 33
  pub entryhi_view : t.cpr0 cpr0_entryhi ≡ u32 (t.cpr0_64 cpr0_entryhi)
  pub context_view : t.cpr0 cpr0_context ≡ u32 (t.cpr0_64 cpr0_context)

-- The exception: as any other, but for the refill vectors, which are used when EXL was clear.
pub record IsTlbFault (va code : ℕ) (is_refill xtlb : Bool) (s t : State) : Type 0 where
  pub staged : IsStaged va s t
  pub faulted : t.tlb_fault ≡ true
  pub exl : sr_exl t ≡ true
  pub erl : sr_erl t ≡ false
  pub exc_code : bits (t.cpr0 cpr0_cause) 2 5 ≡ code
  pub epc : t.cpr0_64 cpr0_epc ≡ (if sr_exl s then s.cpr0_64 cpr0_epc else restart_pc s)
  pub vector :
      t.pc
      ≡ sext32 (
          (if sr_bev s then 0xBFC00200 else 0x80000000)
          + (if is_refill && not (sr_exl s) then (if xtlb then 0x80 else 0) else 0x180))
  pub linked : t.ll_armed ≡ s.ll_armed

-- After a TLB exception at a 64-bit address, BadVAddr holds the address, EntryHi its region and
-- VPN2 with the ASID kept, Context and XContext their fields of the address with the table
-- bases kept, and the 32-bit views of EntryHi and Context agree.
pub raise_tlb-IsStaged :
    (s : State) (va code : ℕ) (is_refill xtlb : Bool)
    → va < 2 ^ 64
    → IsStaged va s (raise_tlb s va code is_refill xtlb)
unfolding raise_tlb
raise_tlb-IsStaged s va code is_refill xtlb w = record {
  badvaddr = ground arith;
  region = ground arith;
  vpn2 = ground arith;
  asid = ground arith;
  context_vpn2 = ground arith;
  context_base = ground arith;
  xcontext_vpn2 = ground arith;
  xcontext_region = ground arith;
  xcontext_base = ground arith;
  entryhi_view = ground arith;
  context_view = ground arith;
}

-- For a 64-bit address and a code below 32, raise_tlb stages the address, marks the fault, sets
-- EXL and clears ERL, saves the pc unless EXL was set, takes the refill vector only for a
-- refill with EXL clear and else the general one, and leaves the load-link as it was.
pub raise_tlb-IsTlbFault :
    (s : State) (va code : ℕ) (is_refill xtlb : Bool)
    → va < 2 ^ 64
    → code < 32
    → IsTlbFault va code is_refill xtlb s (raise_tlb s va code is_refill xtlb)
unfolding raise_tlb
raise_tlb-IsTlbFault s va code is_refill xtlb w c = record {
  staged = raise_tlb-IsStaged s va code is_refill xtlb w;
  faulted = refl;
  exl = ground arith;
  erl = ground arith;
  exc_code = ground arith;
  epc = ground arith;
  vector = ground arith;
  linked = ground arith;
}

-- A mask of `k` bits does not read what stands above them.
and_low : (k a b m : ℕ) → b < 2 ^ k → m < 2 ^ k → bit_and (a * 2 ^ k + b) m ≡ bit_and b m
and_low k a b m p q = ground (arith, bit_and_cut k a 0 b m p q, bit_and-zero a)

-- The VPN2 that a mask reads in an address or in an EntryHi.
vpn2_of : (x m : ℕ) → m < 2 ^ 27 → bit_and x (m * 2 * 2 ^ 12) ≡ bit_and (bits x 13 27) m * 2 ^ 13
vpn2_of x m h = ground (
  arith,
  bit_and_high_mask 13 x m,
  and_low 27 (x / 2 ^ 13 / 2 ^ 27) (x / 2 ^ 13 % 2 ^ 27) m (omega arith) h,
)

entry_matches_of_fields :
    (e : TlbEntry) (va asid : ℕ)
    → bits e.entry_hi 13 27 ≡ bits va 13 27
    → bits e.entry_hi 62 2 ≡ bits va 62 2
    → bits e.entry_hi 0 8 ≡ asid
    → entry_matches e va asid ≡ true
unfolding entry_matches
entry_matches_of_fields e va asid vpn region same =
    let m = bit_and (not64 (pair_mask e) / 2 ^ 13) 0x7ffffff in
    let small : m < 2 ^ 27 = bit_and-lt 27 _ 0x7ffffff (omega arith) in
    ground (arith, vpn_mask_lem e, vpn2_of va m small, vpn2_of e.entry_hi m small)

-- An entry whose EntryHi is the one that a TLB exception at a 64-bit address staged matches
-- that address under the ASID of the fault, whatever its page mask is.
pub entry_matches-raise_tlb :
    (s : State) (va code : ℕ) (is_refill xtlb : Bool) (e : TlbEntry)
    → va < 2 ^ 64
    → e.entry_hi ≡ (raise_tlb s va code is_refill xtlb).cpr0_64 cpr0_entryhi
    → entry_matches e va (bits (s.cpr0_64 cpr0_entryhi) 0 8) ≡ true
entry_matches-raise_tlb s va code is_refill xtlb e w h =
    let staged = raise_tlb-IsStaged s va code is_refill xtlb w in
    entry_matches_of_fields e va (bits (s.cpr0_64 cpr0_entryhi) 0 8) (rw h staged.vpn2)
      (rw h staged.region) (rw h staged.asid)
