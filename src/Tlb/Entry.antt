-- ===== src/Tlb/Entry.antt =====
-- One entry of the 48: what it matches, and the page that it gives.
use interp_mips.Prelude.{
  ℕ, zero, suc, ◌+◌, Bool, true, false, not, ◌&&◌, ◌||◌, if◌then◌else◌, ◌==◌, bit_and, bit_or, bits,
  is_set, ◌<<<◌, ◌>>>◌, not64, Option, none, some,
}
use interp_mips.Cpu.{TlbEntry, num_tlb_entries}

-- `tlb_op`.
pub data TlbOp : Type 0 where
  fetch load store : TlbOp

abbrev pub is_fetch : TlbOp → Bool
is_fetch fetch = true
is_fetch load = false
is_fetch store = false

abbrev pub is_store : TlbOp → Bool
is_store fetch = false
is_store load = false
is_store store = true

-- What the page masks of an entry span: the pair of pages, one page, and the bit between them.
abbrev pub pair_mask : TlbEntry → ℕ
pair_mask e = bit_or (bit_and e.page_mask 0x1ffe000) 0x1fff

abbrev pub off_mask : TlbEntry → ℕ
off_mask e = pair_mask e >>> 1

abbrev pub sel_bit : TlbEntry → ℕ
sel_bit e = (pair_mask e + 1) >>> 1

abbrev pub vpn_mask : TlbEntry → ℕ
vpn_mask e = bit_and (not64 (pair_mask e)) 0xffffffe000

abbrev pub global : TlbEntry → Bool
global e = is_set e.entry_lo0 0 && is_set e.entry_lo1 0

-- The match of the lookup in `va_translate_inner`.
unfoldable pub entry_matches : TlbEntry → ℕ → ℕ → Bool
entry_matches e va asid =
    (bit_and va (vpn_mask e) == bit_and e.entry_hi (vpn_mask e)
      && bits va 62 2 == bits e.entry_hi 62 2)
    && (global e || asid == bits e.entry_hi 0 8)

-- The first index at or after `i` whose entry passes the test, with `left` entries left.
unfoldable pub first_match : (TlbEntry → Bool) → (ℕ → TlbEntry) → ℕ → ℕ → Option ℕ
first_match test tlb zero i = none
first_match test tlb (suc left) i =
    let rest = first_match test tlb left (i + 1) in if test (tlb i) then some i else rest

-- How a lookup ends. A hit has the physical address, the D bit, and whether C is 3.
pub data Walk : Type 0 where
  refill invalid modified : Walk
  hit : ℕ → Bool → Bool → Walk

-- The even or the odd half of the pair.
abbrev pub entry_lo : TlbEntry → ℕ → ℕ
entry_lo e va = if bit_and va (sel_bit e) == 0 then e.entry_lo0 else e.entry_lo1

abbrev pub page_address : TlbEntry → ℕ → ℕ
page_address e va = bit_or (bits (entry_lo e va) 6 28 <<< 12) (bit_and va (off_mask e))

unfoldable pub entry_walk : TlbEntry → ℕ → TlbOp → Walk
entry_walk e va op =
    let e_lo = entry_lo e va in
    if not (is_set e_lo 1)
    then invalid
    else if is_store op && not (is_set e_lo 2)
    then modified
    else hit (page_address e va) (is_set e_lo 2) (bits e_lo 3 3 == 3)

-- The end of the lookup, from the index that matched.
abbrev pub walk_at : (ℕ → TlbEntry) → ℕ → TlbOp → Option ℕ → Walk
walk_at tlb va op none = refill
walk_at tlb va op (some i) = entry_walk (tlb i) va op

-- The lookup over the 48 entries.
unfoldable pub tlb_walk : (ℕ → TlbEntry) → ℕ → ℕ → TlbOp → Walk
tlb_walk tlb asid va op =
    walk_at tlb va op (first_match (λ e. entry_matches e va asid) tlb num_tlb_entries 0)
