-- ===== src/Tlb/Translate.antt =====
-- `va_translate_inner`: the unmapped segments, the micro-TLB, and the lookup behind it. The debug
-- probes and the profiler's markers of `va_translate`, which change no state of the processor,
-- are left out.
use interp_mips.Prelude.{
  ℕ, ◌%◌, ◌^◌, Bool, true, false, not, ◌&&◌, ◌||◌, if◌then◌else◌, ◌==◌, bit_or, bits, u32, ◌<<<◌,
  ◌>>>◌, update, Option, none, some,
}
use interp_mips.Cpu.{State, UtlbEntry, cpr0_entryhi}
use interp_mips.Tlb.Fault.{raise_tlb}
use interp_mips.Tlb.Entry.{TlbOp, is_fetch, is_store, Walk, refill, invalid}
use interp_mips.Tlb.Entry.{modified, hit, tlb_walk}

-- A sign-extended 32-bit address.
abbrev pub is_compat : ℕ → Bool
is_compat va = va >>> 32 == 0 || va >>> 32 == 0xffffffff

-- kseg0 and kseg1, the unmapped segments of the 32-bit space.
abbrev pub segment : ℕ → ℕ
segment va = u32 va >>> 29

abbrev pub cur_asid : State → ℕ
cur_asid s = bits (s.cpr0_64 cpr0_entryhi) 0 8

-- Where an address needs no lookup: its physical address, and whether it is cached.
unfoldable pub unmapped : ℕ → Option (ℕ × Bool)
unmapped va =
    if is_compat va
    then (if segment va == 4
        then some (u32 va % 2 ^ 29, true)
        else if segment va == 5
        then some (u32 va % 2 ^ 29, false)
        else none)
    else if bits va 62 2 == 2
    then some (u32 (va % 2 ^ 40), false)
    else none

abbrev pub fault_code : TlbOp → ℕ
fault_code op = if is_store op then 3 else 2

-- An access that found its page: the flag for the cache model is set for a cached data access.
abbrev pub found : State → TlbOp → Bool → State
found s op cached = record s { cache_active = cached && not (is_fetch op) }

-- The end of the lookup; a hit fills `slot` of the micro-TLB.
unfoldable pub walk_end : State → ℕ → TlbOp → Walk → State × ℕ
walk_end s va op refill =
    (raise_tlb (found s op false) va (fault_code op) true (not (is_compat va)), 0)
walk_end s va op invalid =
    (raise_tlb (found s op false) va (fault_code op) false (not (is_compat va)), 0)
walk_end s va op modified = (raise_tlb (found s op false) va 1 false (not (is_compat va)), 0)
walk_end s va op (hit pa dirty cached) = (
  record (found s op cached) {
    utlb = update s.utlb (va >>> 12 % 64) (record {
      vpn = va >>> 12;
      asid = cur_asid s;
      ppn = u32 (pa >>> 12);
      dirty = dirty;
      valid = true;
      cached = cached;
    });
  },
  u32 pa,
)

-- A hit in the micro-TLB; a store to a page that is not dirty goes on to the lookup.
abbrev pub utlb_hits : UtlbEntry → ℕ → ℕ → TlbOp → Bool
utlb_hits ce vpn asid op =
    ce.valid && ce.vpn == vpn && ce.asid == asid && not (is_store op && not ce.dirty)

unfoldable pub va_mapped : State → ℕ → TlbOp → State × ℕ
unfolding walk_end
va_mapped s va op =
    let ce = s.utlb (va >>> 12 % 64) in
    let walked = walk_end s va op (tlb_walk s.tlb (cur_asid s) va op) in
    if utlb_hits ce (va >>> 12) (cur_asid s) op
    then (found s op ce.cached, bit_or (u32 (ce.ppn <<< 12)) (va % 2 ^ 12))
    else walked

-- An unmapped address is its physical address; any other goes on to the mapped translation.
abbrev pub by_segment : State → TlbOp → State × ℕ → Option (ℕ × Bool) → State × ℕ
by_segment s op mapped (some (pa, cached)) = (found s op cached, pa)
by_segment s op mapped none = mapped

unfoldable pub va_translate : State → ℕ → TlbOp → State × ℕ
unfolding va_mapped unmapped
va_translate s va op = by_segment s op (va_mapped s va op) (unmapped va)
