-- ===== src/Tlb/Ops.antt =====
-- The TLB instructions: TLBR, TLBWI, TLBWR, TLBP, the flush of the micro-TLB, and `tlb_probe_ro`,
-- the lookup of the debugger that raises no exception. The counters and the duplicate check, which
-- only print, are left out.
use interp_mips.Prelude.{
  ℕ, ◌-◌, ◌%◌, ◌^◌, Bool, false, not, ◌&&◌, ◌||◌, if◌then◌else◌, ◌==◌, ltb, leb, u32, bits, is_set,
  set_bit, not64, bit_and, bit_or, update, Option, none, some,
}
use interp_mips.Cpu.{
  State, TlbEntry, Outcome, ok, aborts, num_tlb_entries, cpr0_index, cpr0_random, cpr0_entrylo0,
  cpr0_entrylo1, cpr0_pagemask, cpr0_wired, cpr0_entryhi,
}
use interp_mips.Tlb.Entry.{first_match, global, pair_mask, entry_lo, page_address}
use interp_mips.Tlb.Translate.{is_compat, cur_asid, unmapped}

unfoldable pub valid_page_mask : ℕ → Bool
valid_page_mask pm =
    pm == 0x0000000
    || pm == 0x0006000
    || pm == 0x001e000
    || pm == 0x007e000
    || pm == 0x01fe000
    || pm == 0x07fe000
    || pm == 0x1ffe000

unfoldable pub utlb_flush : State → State
utlb_flush s = record s { utlb = λ i. record (s.utlb i) { valid = false } }

-- The staging registers, as an entry.
abbrev pub staged : State → TlbEntry
staged s = record {
  entry_hi = s.cpr0_64 cpr0_entryhi;
  entry_lo0 = s.cpr0_64 cpr0_entrylo0;
  entry_lo1 = s.cpr0_64 cpr0_entrylo1;
  page_mask = s.cpr0 cpr0_pagemask;
}

-- The write that TLBWI and TLBWR share: an index out of range writes nothing, a page mask that the
-- processor does not have fails the `assert`, and the micro-TLB is dropped.
unfoldable pub tlb_write : State → ℕ → Outcome State
unfolding valid_page_mask utlb_flush
tlb_write s idx =
    if ltb idx num_tlb_entries
    then (if valid_page_mask (s.cpr0 cpr0_pagemask)
        then ok (utlb_flush (record s { tlb = update s.tlb idx (staged s) }))
        else aborts)
    else ok (utlb_flush s)

unfoldable pub tlbwi : State → Outcome State
unfolding tlb_write
tlbwi s = tlb_write s (s.cpr0 cpr0_index % 64)

-- Random goes down to Wired and then back to the last entry.
unfoldable pub next_random : ℕ → ℕ → ℕ
next_random random wired = if leb random wired then num_tlb_entries - 1 else random - 1

unfoldable pub step_random : State → State
unfolding next_random
step_random s = record s {
  cpr0 = update s.cpr0 cpr0_random (next_random (s.cpr0 cpr0_random % 64) (s.cpr0 cpr0_wired % 64));
}

abbrev pub then_step : Outcome State → Outcome State
then_step (ok s) = ok (step_random s)
then_step Outcome.exits = Outcome.exits
then_step aborts = aborts
then_step Outcome.host_fault = Outcome.host_fault

unfoldable pub tlbwr : State → Outcome State
unfolding tlb_write step_random
tlbwr s = then_step (tlb_write s (s.cpr0 cpr0_random % 64))

unfoldable pub tlbr : State → State
tlbr s =
    let idx = s.cpr0 cpr0_index % 64 in
    let e = s.tlb idx in
    if ltb idx num_tlb_entries
    then record s {
      cpr0 =
          update
            (update
              (update (update s.cpr0 cpr0_entryhi (u32 e.entry_hi)) cpr0_entrylo0 (u32 e.entry_lo0))
              cpr0_entrylo1 (u32 e.entry_lo1))
            cpr0_pagemask e.page_mask;
      cpr0_64 =
          update (update (update s.cpr0_64 cpr0_entryhi e.entry_hi) cpr0_entrylo0 e.entry_lo0)
            cpr0_entrylo1 e.entry_lo1;
    }
    else s

-- The match of TLBP: every bit of EntryHi above the page mask, and the ASID.
unfoldable pub tlbp_matches : ℕ → TlbEntry → Bool
tlbp_matches probe_hi e =
    let mask = not64 (bit_or e.page_mask 0x1fff) in
    bit_and probe_hi mask == bit_and e.entry_hi mask
    && (global e || bits probe_hi 0 8 == bits e.entry_hi 0 8)

-- Index after a probe: the index that matched, or bit 31 set.
abbrev pub probed_index : ℕ → Option ℕ → ℕ
probed_index index none = set_bit index 31
probed_index index (some i) = i

unfoldable pub tlbp : State → State
tlbp s = record s {
  cpr0 = update s.cpr0 cpr0_index (
      probed_index (s.cpr0 cpr0_index)
        (first_match (tlbp_matches (s.cpr0_64 cpr0_entryhi)) s.tlb num_tlb_entries 0));
}

-- The match of `tlb_probe_ro`; `wide` is a 64-bit address.
unfoldable pub probe_matches : ℕ → ℕ → TlbEntry → Bool
probe_matches va asid e =
    let wide = not (is_compat va) in
    let mask = bit_and (not64 (pair_mask e)) (if wide then 2 ^ 64 - 4 else 0xffffffff) in
    (bit_and va mask == bit_and e.entry_hi mask
      && (not wide || bits va 62 2 == bits e.entry_hi 62 2))
    && (global e || asid == bits e.entry_hi 0 8)

abbrev pub probed_page : (ℕ → TlbEntry) → ℕ → Option ℕ → Option ℕ
probed_page tlb va none = none
probed_page tlb va (some i) =
    if is_set (entry_lo (tlb i) va) 1 then some (u32 (page_address (tlb i) va)) else none

abbrev pub probed_address : Option (ℕ × Bool) → Option ℕ → Option ℕ
probed_address (some (pa, cached)) mapped = some pa
probed_address none mapped = mapped

-- The physical address of a guest address, with no exception raised and no state changed.
unfoldable pub tlb_probe_ro : State → ℕ → Option ℕ
tlb_probe_ro s va =
    probed_address (unmapped va)
      (probed_page s.tlb va (first_match (probe_matches va (cur_asid s)) s.tlb num_tlb_entries 0))
