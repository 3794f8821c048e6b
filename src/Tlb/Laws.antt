-- ===== src/Tlb/Laws.antt =====
-- The TLB instructions of interpret.cc: writes, reads and probes.
use interp_mips.Prelude.{
  ℕ, zero, suc, ◌+◌, ◌%◌, ◌≤◌, ◌<◌, ◌≡◌, refl, arith, Bool, true, false, Option, none, some, inl,
  inr, set_bit, Bool-cases,
}
use interp_mips.Cpu.{
  State, TlbEntry, ok, num_tlb_entries, cpr0_index, cpr0_random, cpr0_wired, cpr0_entryhi,
}
use interp_mips.Tlb.Entry.{first_match}
use interp_mips.Tlb.Coherence.{IsCoherent}
use interp_mips.Tlb.Ops.{
  tlb_write, tlbwi, tlbwr, tlbr, tlbp, staged, tlbp_matches, utlb_flush, probed_index,
}

flush-IsCoherent : (s : State) → IsCoherent (utlb_flush s)
unfolding utlb_flush
flush-IsCoherent s i h = cc

tlb_write-IsCoherent : (s t : State) (idx : ℕ) → tlb_write s idx ≡ ok t → IsCoherent t
unfolding tlb_write
tlb_write-IsCoherent s t idx h i valid = ground arith

-- After a TLBWI that passes its assertion the micro-TLB is coherent with the entries, whatever
-- it held before.
pub tlbwi-IsCoherent : (s t : State) → tlbwi s ≡ ok t → IsCoherent t
unfolding tlbwi
tlbwi-IsCoherent s t h = tlb_write-IsCoherent s t (s.cpr0 cpr0_index % 64) h

-- After a TLBWR that passes its assertion the micro-TLB is coherent with the entries, whatever
-- it held before.
pub tlbwr-IsCoherent : (s t : State) → tlbwr s ≡ ok t → IsCoherent t
unfolding tlbwr tlb_write
tlbwr-IsCoherent s t h i valid = ground arith

-- A TLBR from any state with the entries that a TLBWI of an index below 48 left, at the same
-- Index, stages what the TLBWI had staged.
pub tlbr-tlbwi :
    (s t u : State)
    → s.cpr0 cpr0_index % 64 < num_tlb_entries
    → tlbwi s ≡ ok t
    → u.tlb ≡ t.tlb
    → u.cpr0 cpr0_index ≡ s.cpr0 cpr0_index
    → staged (tlbr u) ≡ staged s
unfolding tlbwi tlbr
tlbr-tlbwi s t u h w e f = ground arith

-- Random in its range, and the wired entries out of reach of TLBWR.
pub record IsRandomIn (s : State) : Type 0 where
  pub at_least : s.cpr0 cpr0_wired ≤ s.cpr0 cpr0_random
  pub below : s.cpr0 cpr0_random < num_tlb_entries

pub record KeepsWired (s t : State) : Type 0 where
  pub wired_kept : (i : ℕ) → i < s.cpr0 cpr0_wired → t.tlb i ≡ s.tlb i
  pub written : t.tlb (s.cpr0 cpr0_random) ≡ staged s
  pub in_range : IsRandomIn t

-- Where Random is between Wired and 47, a TLBWR that passes its assertion writes the staged
-- registers at Random, keeps every entry below Wired, and leaves Random between Wired and 47.
pub tlbwr-KeepsWired : (s t : State) → IsRandomIn s → tlbwr s ≡ ok t → KeepsWired s t
unfolding tlbwr
tlbwr-KeepsWired s t r h = record {
  wired_kept = λ i lt. ground arith;
  written = ground arith;
  in_range = ground arith;
}

-- The first entry at or after `i` that passes.
pub data IsFirst (test : TlbEntry → Bool) (tlb : ℕ → TlbEntry) (left i : ℕ)
    : Option ℕ → Type 0 where
  found :
      {k : ℕ}
      → i ≤ k
      → k < i + left
      → test (tlb k) ≡ true
      → ((j : ℕ) → i ≤ j → j < k → test (tlb j) ≡ false)
      → IsFirst test tlb left i (some k)
  nowhere : ((j : ℕ) → i ≤ j → j < i + left → test (tlb j) ≡ false) → IsFirst test tlb left i none

-- The search of the entries from i finds the first one in its range that passes the test, and
-- finds none only where none passes.
pub first_match-IsFirst :
    (test : TlbEntry → Bool) (tlb : ℕ → TlbEntry) (left i : ℕ)
    → IsFirst test tlb left i (first_match test tlb left i)
unfolding first_match
first_match-IsFirst test tlb zero i = nowhere (λ j p q. absurd (omega arith))
first_match-IsFirst test tlb (suc left) i = elim (Bool-cases (test (tlb i))) [
  | inl hit ↦ rw hit (found (omega arith) (omega arith) hit (λ j p q. absurd (omega arith)))
  | inr miss ↦ rw miss (later left i miss (first_match-IsFirst test tlb left (i + 1)))
]
  where
    skip :
        (k i : ℕ)
        → test (tlb i) ≡ false
        → ((j : ℕ) → i + 1 ≤ j → j < k → test (tlb j) ≡ false)
        → (j : ℕ) → i ≤ j
        → j < k
        → test (tlb j) ≡ false
    skip k i miss none_above j p q = grind arith

    later :
        (left i : ℕ) {o : Option ℕ}
        → test (tlb i) ≡ false
        → IsFirst test tlb left (i + 1) o
        → IsFirst test tlb (suc left) i o
    later left i miss (found {k = k} p q h none_above) =
        found (omega arith) (omega arith) h (skip k i miss none_above)
    later left i miss (nowhere none_above) =
        nowhere
          (λ j p q. skip (i + suc left) i miss (λ j' p' q'. none_above j' p' (omega arith)) j p q)

-- What a probe leaves in Index.
pub data IsProbed (s : State) : ℕ → Type 0 where
  present :
      {i : ℕ}
      → i < num_tlb_entries
      → tlbp_matches (s.cpr0_64 cpr0_entryhi) (s.tlb i) ≡ true
      → ((j : ℕ) → j < i → tlbp_matches (s.cpr0_64 cpr0_entryhi) (s.tlb j) ≡ false)
      → IsProbed s i
  absent :
      {index : ℕ}
      → ((j : ℕ) → j < num_tlb_entries → tlbp_matches (s.cpr0_64 cpr0_entryhi) (s.tlb j) ≡ false)
      → index ≡ set_bit (s.cpr0 cpr0_index) 31
      → IsProbed s index

probed_index-IsProbed :
    (s : State) (o : Option ℕ)
    → IsFirst (tlbp_matches (s.cpr0_64 cpr0_entryhi)) s.tlb num_tlb_entries 0 o
    → IsProbed s (probed_index (s.cpr0 cpr0_index) o)
probed_index-IsProbed s (some k) (found p q h below) =
    present (omega arith) h (λ j lt. below j (omega arith) lt)
probed_index-IsProbed s none (nowhere below) =
    absent (λ j lt. below j (omega arith) (omega arith)) refl

-- After TLBP, Index is the first of the 48 entries that matches EntryHi or, where none matches,
-- the old Index with bit 31 set.
pub tlbp-IsProbed : (s : State) → IsProbed s ((tlbp s).cpr0 cpr0_index)
unfolding tlbp
tlbp-IsProbed s = probed_index-IsProbed s _ (first_match-IsFirst _ s.tlb num_tlb_entries 0)
