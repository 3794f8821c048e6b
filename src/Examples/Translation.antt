-- ===== src/Examples/Translation.antt =====
-- Runs of the address translation and of the TLB instructions.
use interp_mips.Prelude.{ℕ, ◌≡◌, refl, arith, Bool, true, false, update}
use interp_mips.Cpu.{State, TlbEntry, ok, cpr0_index, cpr0_entryhi}
use interp_mips.Examples.{cpu, two_pages}
use interp_mips.Tlb.Entry.{load, store, first_match, entry_walk, entry_matches, tlb_walk}
use interp_mips.Tlb.Fault.{raise_tlb}
use interp_mips.Tlb.Translate.{va_translate, walk_end}
use interp_mips.Tlb.Coherence.{
  va_translate_cam, IsCoherent, IsRefinement, va_translate-IsRefinement,
}
use interp_mips.Tlb.Ops.{tlbwi, tlbwr, tlbr, staged, tlb_write, utlb_flush, step_random}
use interp_mips.Tlb.Laws.{tlbwi-IsCoherent, tlbr-tlbwi, KeepsWired, tlbwr-KeepsWired, IsRandomIn}
use interp_mips.Tlb.Refill.{IsTlbFault, raise_tlb-IsTlbFault}

cpu-IsCoherent : IsCoherent cpu
cpu-IsCoherent i v = ground arith

-- The second page, at frame 5.
translated : (va_translate cpu 0x3010 load).1 ≡ 0x5010
unfolding va_translate tlb_walk entry_matches walk_end first_match entry_walk
translated = refl

-- The store finds in the micro-TLB what the load left there.
va_translate-IsRefinement_example :
    IsRefinement
      (va_translate (va_translate cpu 0x3010 load).0 0x3020 store)
      (va_translate_cam (va_translate cpu 0x3010 load).0 0x3020 store)
va_translate-IsRefinement_example =
    va_translate-IsRefinement (va_translate cpu 0x3010 load).0 0x3020 store
      (va_translate-IsRefinement cpu 0x3010 load cpu-IsCoherent).coherent

-- A write of the staged registers at Index, which is 0, and at Random, which is 47.
abbrev after_tlbwi : State
after_tlbwi = utlb_flush (record cpu { tlb = update cpu.tlb 0 (staged cpu) })

abbrev after_tlbwr : State
after_tlbwr = step_random (utlb_flush (record cpu { tlb = update cpu.tlb 47 (staged cpu) }))

tlbwi_runs : tlbwi cpu ≡ ok after_tlbwi
unfolding tlbwi tlb_write
tlbwi_runs = refl

tlbwr_runs : tlbwr cpu ≡ ok after_tlbwr
unfolding tlbwr tlb_write
tlbwr_runs = refl

cpu-IsRandomIn : IsRandomIn cpu
cpu-IsRandomIn = record { at_least = omega arith; below = omega arith }

tlbwi-IsCoherent_example : IsCoherent after_tlbwi
tlbwi-IsCoherent_example = tlbwi-IsCoherent cpu after_tlbwi tlbwi_runs

flushed_index : after_tlbwi.cpr0 cpr0_index ≡ cpu.cpr0 cpr0_index
unfolding utlb_flush
flushed_index = refl

tlbr-tlbwi_example : staged (tlbr after_tlbwi) ≡ staged cpu
tlbr-tlbwi_example =
    tlbr-tlbwi cpu after_tlbwi after_tlbwi (omega arith) tlbwi_runs refl flushed_index

tlbwr-KeepsWired_example : KeepsWired cpu after_tlbwr
tlbwr-KeepsWired_example = tlbwr-KeepsWired cpu after_tlbwr cpu-IsRandomIn tlbwr_runs

abbrev entry_matches_at : ℕ → TlbEntry → Bool
entry_matches_at va e = entry_matches e va 0

raise_tlb-IsTlbFault_example :
    IsTlbFault 0x4000000000002345 3 true true cpu (raise_tlb cpu 0x4000000000002345 3 true true)
raise_tlb-IsTlbFault_example =
    raise_tlb-IsTlbFault cpu 0x4000000000002345 3 true true (omega arith) (omega arith)

-- The entry that a handler writes for the fault.
abbrev refilled : TlbEntry
refilled = record two_pages {
  entry_hi = (raise_tlb cpu 0x12345678 2 true false).cpr0_64 cpr0_entryhi;
}
