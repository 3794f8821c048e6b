-- ===== src/Tlb/Page.antt =====
-- The lookup of the TLB in interpret.cc on the addresses of one page of 4 KB.
use interp_mips.Prelude.{
  ℕ, ◌+◌, ◌*◌, ◌/◌, ◌^◌, ◌<◌, ◌≡◌, refl, sym, ap, ◌∙◌, arith, Bool, false, not, ◌&&◌, bit_and,
  bit_or, bits, not64, Option, none, some,
}
use interp_mips.Prelude.{bit_and_cut, bit_or_cut, bit_or_fields, bit_and_high, bit_and_ones}
use interp_mips.Prelude.{bit_and_high_mask, zero-bit_or}
use interp_mips.Cpu.{TlbEntry}
use interp_mips.Tlb.Entry.{
  TlbOp, pair_mask, off_mask, sel_bit, vpn_mask, entry_lo, page_address, entry_matches, first_match,
  Walk, refill, invalid, modified, hit, entry_walk, walk_at, tlb_walk, is_store,
}
use mathlib.Core.Path.{fun_ext}

-- PageMask[24:13], as a number.
abbrev span : TlbEntry → ℕ
span e = bit_and (e.page_mask / 2 ^ 13) 0xfff

pair_mask_lem : (e : TlbEntry) → pair_mask e ≡ span e * 2 ^ 13 + 0x1fff
pair_mask_lem e =
    rw (bit_and_high_mask 13 e.page_mask 0xfff) (bit_or_fields 13 (span e) 0x1fff (omega arith))

off_mask_lem : (e : TlbEntry) → off_mask e ≡ span e * 2 ^ 12 + 0xfff
off_mask_lem e = omega (arith, pair_mask_lem e)

sel_bit_lem : (e : TlbEntry) → sel_bit e ≡ (span e + 1) * 2 ^ 12
sel_bit_lem e = omega (arith, pair_mask_lem e)

pub vpn_mask_lem :
    (e : TlbEntry) → vpn_mask e ≡ bit_and (not64 (pair_mask e) / 2 ^ 13) 0x7ffffff * 2 * 2 ^ 12
vpn_mask_lem e = omega (arith, bit_and_high_mask 13 (not64 (pair_mask e)) 0x7ffffff)

module _ (v off : ℕ) (h : off < 2 ^ 12) where
  -- The address at `off` in the page `v`, and the page's first address.
  abbrev at : ℕ
  at = v * 2 ^ 12 + off

  and_page : (m : ℕ) → bit_and (v * 2 ^ 12 + off) (m * 2 ^ 12) ≡ bit_and (v * 2 ^ 12) (m * 2 ^ 12)
  and_page m = bit_and_high 12 v m off h ∙ sym (ground (arith, bit_and_high 12 v m 0 (omega arith)))

  entry_lo-page : (e : TlbEntry) → entry_lo e (v * 2 ^ 12 + off) ≡ entry_lo e (v * 2 ^ 12)
  entry_lo-page e = rw (sel_bit_lem e, and_page (span e + 1))

  entry_matches-page :
      (asid : ℕ) (e : TlbEntry)
      → entry_matches e (v * 2 ^ 12 + off) asid ≡ entry_matches e (v * 2 ^ 12) asid
  unfolding entry_matches
  entry_matches-page asid e =
      ground
        (arith, vpn_mask_lem e, and_page (bit_and (not64 (pair_mask e) / 2 ^ 13) 0x7ffffff * 2))

  page_address-page :
      (e : TlbEntry)
      → page_address e (v * 2 ^ 12 + off)
        ≡ bit_or (bits (entry_lo e (v * 2 ^ 12)) 6 28) (bit_and v (span e)) * 2 ^ 12 + off
  page_address-page e = ground (
    arith,
    entry_lo-page e,
    off_mask_lem e,
    bit_and_cut 12 v (span e) off 0xfff h (omega arith),
    bit_and_ones 12 off h,
    bit_or_cut 12 (bits (entry_lo e (v * 2 ^ 12)) 6 28) (bit_and v (span e)) 0 off (omega arith) h,
    zero-bit_or off,
  )

  first_match-page :
      (asid : ℕ) (tlb : ℕ → TlbEntry) (left i : ℕ)
      → first_match (λ e. entry_matches e (v * 2 ^ 12 + off) asid) tlb left i
        ≡ first_match (λ e. entry_matches e (v * 2 ^ 12) asid) tlb left i
  first_match-page asid tlb left i =
      ap (λ test. first_match test tlb left i) (fun_ext (entry_matches-page asid))

-- What a lookup finds at the start of a page, moved to the offset `off`.
abbrev pub at_offset : ℕ → Walk → Walk
at_offset off refill = refill
at_offset off invalid = invalid
at_offset off modified = modified
at_offset off (hit p dirty cached) = hit (p + off) dirty cached

entry_walk-page :
    (v off : ℕ)
    → off < 2 ^ 12
    → (e : TlbEntry) (op : TlbOp)
    → entry_walk e (v * 2 ^ 12 + off) op ≡ at_offset off (entry_walk e (v * 2 ^ 12) op)
unfolding entry_walk
entry_walk-page v off h e op = ground (
  arith,
  entry_lo-page v off h e,
  page_address-page v off h e,
  page_address-page v 0 (omega arith) e,
)

walk_at-page :
    (v off : ℕ)
    → off < 2 ^ 12
    → (tlb : ℕ → TlbEntry) (op : TlbOp) (o : Option ℕ)
    → walk_at tlb (v * 2 ^ 12 + off) op o ≡ at_offset off (walk_at tlb (v * 2 ^ 12) op o)
walk_at-page v off h tlb op none = refl
walk_at-page v off h tlb op (some i) = entry_walk-page v off h (tlb i) op

pub tlb_walk-page :
    (v off : ℕ)
    → off < 2 ^ 12
    → (tlb : ℕ → TlbEntry) (asid : ℕ) (op : TlbOp)
    → tlb_walk tlb asid (v * 2 ^ 12 + off) op ≡ at_offset off (tlb_walk tlb asid (v * 2 ^ 12) op)
unfolding tlb_walk
tlb_walk-page v off h tlb asid op =
    ap (walk_at tlb (v * 2 ^ 12 + off) op) (first_match-page v off h asid tlb 48 0)
    ∙ walk_at-page v off h tlb op _

entry_walk-aligned :
    (v : ℕ) (e : TlbEntry) (op : TlbOp) (p : ℕ) (d c : Bool)
    → entry_walk e (v * 2 ^ 12) op ≡ hit p d c
    → p ≡ p / 2 ^ 12 * 2 ^ 12
unfolding entry_walk
entry_walk-aligned v e op p d c h = ground (arith, page_address-page v 0 (omega arith) e)

walk_at-aligned :
    (v : ℕ) (tlb : ℕ → TlbEntry) (op : TlbOp) (p : ℕ) (d c : Bool) (o : Option ℕ)
    → walk_at tlb (v * 2 ^ 12) op o ≡ hit p d c
    → p ≡ p / 2 ^ 12 * 2 ^ 12
walk_at-aligned v tlb op p d c none h = cc
walk_at-aligned v tlb op p d c (some i) h = entry_walk-aligned v (tlb i) op p d c h

-- A lookup at the start of a page that hits gives the start of a page.
pub tlb_walk-aligned :
    (v : ℕ) (tlb : ℕ → TlbEntry) (asid : ℕ) (op : TlbOp) (p : ℕ) (d c : Bool)
    → tlb_walk tlb asid (v * 2 ^ 12) op ≡ hit p d c
    → p ≡ p / 2 ^ 12 * 2 ^ 12
unfolding tlb_walk
tlb_walk-aligned v tlb asid op p d c h = walk_at-aligned v tlb op p d c _ h

entry_walk_ops :
    (e : TlbEntry) (va : ℕ) (op op' : TlbOp) (p : ℕ) (d c : Bool)
    → (is_store op' && not d) ≡ false
    → entry_walk e va op ≡ hit p d c
    → entry_walk e va op' ≡ hit p d c
unfolding entry_walk
entry_walk_ops e va op op' p d c ne h = ground arith

walk_at_ops :
    (tlb : ℕ → TlbEntry) (va : ℕ) (op op' : TlbOp) (p : ℕ) (d c : Bool) (o : Option ℕ)
    → (is_store op' && not d) ≡ false
    → walk_at tlb va op o ≡ hit p d c
    → walk_at tlb va op' o ≡ hit p d c
walk_at_ops tlb va op op' p d c none ne h = cc
walk_at_ops tlb va op op' p d c (some i) ne h = entry_walk_ops (tlb i) va op op' p d c ne h

-- The kind of access does not change what is found, but for a store to a page that is not dirty.
pub tlb_walk_ops :
    (tlb : ℕ → TlbEntry) (asid va : ℕ) (op op' : TlbOp) (p : ℕ) (d c : Bool)
    → (is_store op' && not d) ≡ false
    → tlb_walk tlb asid va op ≡ hit p d c
    → tlb_walk tlb asid va op' ≡ hit p d c
unfolding tlb_walk
tlb_walk_ops tlb asid va op op' p d c ne h = walk_at_ops tlb va op op' p d c _ ne h
