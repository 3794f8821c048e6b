-- ===== src/Tlb/Coherence.antt =====
-- The micro-TLB of `va_translate_inner` in interpret.cc beside the lookup over the 48 entries.
use interp_mips.Prelude.{
  ℕ, ◌+◌, ◌*◌, ◌/◌, ◌%◌, ◌^◌, ◌<◌, ◌≡◌, refl, sym, ap, ◌∙◌, arith, Bool, true, false, not, ◌&&◌,
  bit_or, u32, Option, none, some, ◌<<<◌, ◌>>>◌, ◌==◌, bit_or_fields, if_both, Bool-cases, inl, inr,
}
use mathlib.Core.Path.{subst₂}
use interp_mips.Cpu.{State, TlbEntry, UtlbEntry}
use interp_mips.Tlb.Entry.{TlbOp, load, is_store, Walk, refill, invalid, modified, hit, tlb_walk}
use interp_mips.Tlb.Page.{tlb_walk-page, tlb_walk-aligned, tlb_walk_ops, at_offset}
use interp_mips.Tlb.Fault.{raise_tlb}
use interp_mips.Tlb.Translate.{
  unmapped, cur_asid, found, walk_end, utlb_hits, va_mapped, va_translate, by_segment,
}

-- The translation with no micro-TLB in front of the lookup.
unfoldable pub va_translate_cam : State → ℕ → TlbOp → State × ℕ
va_translate_cam s va op =
    by_segment s op (walk_end s va op (tlb_walk s.tlb (cur_asid s) va op)) (unmapped va)

-- What the slot says of its page is what a lookup finds there.
abbrev pub IsCoherentSlot : (ℕ → TlbEntry) → UtlbEntry → Type 0
IsCoherentSlot tlb ce =
    ce.valid ≡ true
    → (p : ℕ) × (tlb_walk tlb ce.asid (ce.vpn * 2 ^ 12) load ≡ hit (p * 2 ^ 12) ce.dirty ce.cached)
      × (ce.ppn ≡ u32 p)

abbrev pub IsCoherent : State → Type 0
IsCoherent s = (i : ℕ) → IsCoherentSlot s.tlb (s.utlb i)

-- The state without the micro-TLB.
abbrev pub forget_utlb : State → State
forget_utlb s = record s {
  utlb = λ _. record { vpn = 0; asid = 0; ppn = 0; dirty = false; valid = false; cached = false };
}

page_walk :
    (tlb : ℕ → TlbEntry) (asid va p : ℕ) (op : TlbOp) (d c : Bool)
    → (is_store op && not d) ≡ false
    → tlb_walk tlb asid (va / 2 ^ 12 * 2 ^ 12) load ≡ hit (p * 2 ^ 12) d c
    → tlb_walk tlb asid va op ≡ hit (p * 2 ^ 12 + va % 2 ^ 12) d c
page_walk tlb asid va p op d c ne h =
    tlb_walk_ops tlb asid va load op (p * 2 ^ 12 + va % 2 ^ 12) d c ne (
      ap (λ a. tlb_walk tlb asid a load) whole
      ∙ tlb_walk-page (va / 2 ^ 12) (va % 2 ^ 12) (omega arith) tlb asid load
      ∙ ap (at_offset (va % 2 ^ 12)) h)
  where
    whole : va ≡ va / 2 ^ 12 * 2 ^ 12 + va % 2 ^ 12
    whole = omega arith

address_of_ppn :
    (p ppn off : ℕ)
    → off < 2 ^ 12
    → ppn ≡ u32 p
    → u32 (p * 2 ^ 12 + off) ≡ bit_or (u32 (ppn <<< 12)) off
address_of_ppn p ppn off h e = ground (arith, bit_or_fields 12 (ppn % 2 ^ 20) off h)

-- The lookup, from a coherent slot that hits.
slot_walk :
    (tlb : ℕ → TlbEntry) (ce : UtlbEntry) (va asid : ℕ) (op : TlbOp)
    → IsCoherentSlot tlb ce
    → utlb_hits ce (va >>> 12) asid op ≡ true
    → (pa : ℕ) × (tlb_walk tlb asid va op ≡ hit pa ce.dirty ce.cached)
      × (u32 pa ≡ bit_or (u32 (ce.ppn <<< 12)) (va % 2 ^ 12))
slot_walk tlb ce va asid op coh h =
    let (p, w, e) = coh (ground arith) in
    (
      p * 2 ^ 12 + va % 2 ^ 12,
      page_walk tlb asid va p op ce.dirty ce.cached (ground arith) (ground arith),
      address_of_ppn p ce.ppn (va % 2 ^ 12) (omega arith) e,
    )

-- The start of the page, from a hit at an offset.
at_offset-eq-hit :
    (off : ℕ) (w : Walk) (pa : ℕ) (d c : Bool)
    → at_offset off w ≡ hit pa d c
    → (p : ℕ) × (w ≡ hit p d c) × (p + off ≡ pa)
at_offset-eq-hit off refill pa d c h = cc
at_offset-eq-hit off invalid pa d c h = cc
at_offset-eq-hit off modified pa d c h = cc
at_offset-eq-hit off (hit p dirty cached) pa d c h = (p, ground arith, ground arith)

page_start :
    (tlb : ℕ → TlbEntry) (asid va pa : ℕ) (op : TlbOp) (d c : Bool)
    → tlb_walk tlb asid va op ≡ hit pa d c
    → tlb_walk tlb asid (va / 2 ^ 12 * 2 ^ 12) load ≡ hit (pa / 2 ^ 12 * 2 ^ 12) d c
page_start tlb asid va pa op d c h =
    let (p, w, e) =
      at_offset-eq-hit (va % 2 ^ 12) (tlb_walk tlb asid (va / 2 ^ 12 * 2 ^ 12) load) pa d c (
        sym (tlb_walk-page (va / 2 ^ 12) (va % 2 ^ 12) (omega arith) tlb asid load)
        ∙ ap (λ a. tlb_walk tlb asid a load) whole
        ∙ tlb_walk_ops tlb asid va op load pa d c refl h) in
    w ∙ ap (λ q. hit q d c) (start p e (tlb_walk-aligned (va / 2 ^ 12) tlb asid load p d c w))
  where
    whole : va / 2 ^ 12 * 2 ^ 12 + va % 2 ^ 12 ≡ va
    whole = omega arith

    start : (p : ℕ) → p + va % 2 ^ 12 ≡ pa → p ≡ p / 2 ^ 12 * 2 ^ 12 → p ≡ pa / 2 ^ 12 * 2 ^ 12
    start p e q = omega arith

-- A hit of the lookup fills its slot coherently.
fill-IsCoherentSlot :
    (tlb : ℕ → TlbEntry) (asid va pa : ℕ) (op : TlbOp) (d c : Bool)
    → tlb_walk tlb asid va op ≡ hit pa d c
    → IsCoherentSlot tlb (record {
      vpn = va >>> 12;
      asid = asid;
      ppn = u32 (pa >>> 12);
      dirty = d;
      valid = true;
      cached = c;
    })
fill-IsCoherentSlot tlb asid va pa op d c h valid =
    (pa / 2 ^ 12, page_start tlb asid va pa op d c h, refl)

-- `r` is the translation `spec` with the micro-TLB in front: the same physical address, the same
-- state but for the micro-TLB, which is coherent again.
pub record IsRefinement (r spec : State × ℕ) : Type 0 where
  pub address : r.1 ≡ spec.1
  pub state : forget_utlb r.0 ≡ forget_utlb spec.0
  pub coherent : IsCoherent r.0

raise_tlb-tlb :
    (s : State) (va code : ℕ) (is_refill xtlb : Bool)
    → ((raise_tlb s va code is_refill xtlb).tlb ≡ s.tlb)
      × ((raise_tlb s va code is_refill xtlb).utlb ≡ s.utlb)
unfolding raise_tlb
raise_tlb-tlb s va code is_refill xtlb = ground arith

raise_tlb-IsCoherent :
    (s : State) (va code : ℕ) (is_refill xtlb : Bool)
    → IsCoherent s
    → IsCoherent (raise_tlb s va code is_refill xtlb)
raise_tlb-IsCoherent s va code is_refill xtlb coh =
    let (e, u) = raise_tlb-tlb s va code is_refill xtlb in
    subst₂ {A = ℕ → TlbEntry} {B = ℕ → UtlbEntry} (λ t m. (i : ℕ) → IsCoherentSlot t (m i)) (sym e)
      (sym u) coh

walk_end-IsCoherent :
    (s : State) (va : ℕ) (op : TlbOp) (w : Walk)
    → tlb_walk s.tlb (cur_asid s) va op ≡ w
    → IsCoherent s
    → IsCoherent (walk_end s va op w).0
unfolding walk_end
walk_end-IsCoherent s va op refill h coh = raise_tlb-IsCoherent _ va _ _ _ coh
walk_end-IsCoherent s va op invalid h coh = raise_tlb-IsCoherent _ va _ _ _ coh
walk_end-IsCoherent s va op modified h coh = raise_tlb-IsCoherent _ va _ _ _ coh
walk_end-IsCoherent s va op (hit pa d c) h coh = λ i.
    if_both (IsCoherentSlot s.tlb) (i == va >>> 12 % 64) _ (s.utlb i)
      (fill-IsCoherentSlot s.tlb (cur_asid s) va pa op d c h) (coh i)

hit-IsRefinement :
    (s : State) (va : ℕ) (op : TlbOp)
    → IsCoherent s
    → utlb_hits (s.utlb (va >>> 12 % 64)) (va >>> 12) (cur_asid s) op ≡ true
    → IsRefinement
        (
          found s op (s.utlb (va >>> 12 % 64)).cached,
          bit_or (u32 ((s.utlb (va >>> 12 % 64)).ppn <<< 12)) (va % 2 ^ 12),
        )
        (walk_end s va op (tlb_walk s.tlb (cur_asid s) va op))
unfolding walk_end
hit-IsRefinement s va op coh h =
    let (pa, w, e) = slot_walk s.tlb (s.utlb (va >>> 12 % 64)) va (cur_asid s) op (coh _) h in
    rw w (record { address = sym e; state = refl; coherent = coh })

va_mapped-IsRefinement :
    (s : State) (va : ℕ) (op : TlbOp)
    → IsCoherent s
    → IsRefinement (va_mapped s va op) (walk_end s va op (tlb_walk s.tlb (cur_asid s) va op))
unfolding va_mapped
va_mapped-IsRefinement s va op coh =
    elim (Bool-cases (utlb_hits (s.utlb (va >>> 12 % 64)) (va >>> 12) (cur_asid s) op)) [
      | inl h ↦ rw h (hit-IsRefinement s va op coh h)
      | inr h ↦ rw h (record {
        address = refl;
        state = refl;
        coherent = walk_end-IsCoherent s va op _ refl coh;
      })
    ]

by_segment-IsRefinement :
    (s : State) (op : TlbOp) (o : Option (ℕ × Bool)) (r spec : State × ℕ)
    → IsCoherent s
    → IsRefinement r spec
    → IsRefinement (by_segment s op r o) (by_segment s op spec o)
by_segment-IsRefinement s op (some (pa, cached)) r spec coh h = record {
  address = refl;
  state = refl;
  coherent = coh;
}
by_segment-IsRefinement s op none r spec coh h = h

-- On a coherent micro-TLB, for every address, kind of access and page mask, va_translate gives
-- the address, the fault and the state that the lookup over the 48 entries alone gives, but for
-- the micro-TLB, which stays coherent.
pub va_translate-IsRefinement :
    (s : State) (va : ℕ) (op : TlbOp)
    → IsCoherent s
    → IsRefinement (va_translate s va op) (va_translate_cam s va op)
unfolding va_translate va_translate_cam
va_translate-IsRefinement s va op coh =
    by_segment-IsRefinement s op (unmapped va) _ _ coh (va_mapped-IsRefinement s va op coh)
