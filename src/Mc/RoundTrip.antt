-- ===== src/Mc/RoundTrip.antt =====
-- A write of a register of sgi_mc and a read of it.
use interp_mips.Prelude.{
  ℕ, ◌≡◌, refl, arith, Bool, true, false, ◌&&◌, ◌||◌, ◌==◌, Option, none, some, Option-cases,
  Bool-cases, ◌≢◌, ap, inl, inr, ◌∙◌,
}
use interp_mips.Cpu.{Outcome, ok}
use interp_mips.Memory.Sparse.{Devices}
use interp_mips.Mc.Registers.{SgiMc, slot, in_dma_tlb, read_rest, read_slot, dma_read, read}
use interp_mips.Mc.Dma.{Graphics, World}
use interp_mips.Mc.Access.{dma_store, dma_write, dma_start, store_register, write, Written}

-- The registers of the DMA engine that keep what is written, by their slot.
abbrev pub keeps : ℕ → Bool
keeps r =
    in_dma_tlb r
    || (r == 0x150 || r == 0x158 || r == 0x160 || r == 0x168)
    || (r == 0x2000 || r == 0x2008 || r == 0x2010 || r == 0x2018)
    || (r == 0x2020 || r == 0x2030 || r == 0x2038)

-- What a store leaves to be read.
abbrev pub stored : Option SgiMc → ℕ → Option ℕ
stored (some c) r = read_slot c r
stored none r = none

read_slot-dma_store : (c : SgiMc) (r x : ℕ) → keeps r ≡ true → stored (dma_store c r x) r ≡ some x
unfolding read_slot dma_store
read_slot-dma_store c r x k = ground arith

-- The registers that `write` and `read` know themselves.
abbrev pub keeps_word : ℕ → Bool
keeps_word offs =
    (offs == 0x0 || offs == 0x4 || offs == 0xc || offs == 0xc4 || offs == 0xcc)
    || (offs == 0x84 || offs == 0xd4 || offs == 0xdc)

-- None of these is a DMA register.
keeps_word-slot : (offs : ℕ) (c : SgiMc) → keeps_word offs ≡ true → read_slot c (slot offs) ≡ none
unfolding read_slot
keeps_word-slot offs c k = ground arith

keeps_word-dma_store :
    (offs x : ℕ) (c : SgiMc) → keeps_word offs ≡ true → dma_store c (slot offs) x ≡ none
unfolding dma_store
keeps_word-dma_store offs x c k = ground arith

keeps_word-store :
    (icnt offs x : ℕ) (c : SgiMc)
    → keeps_word offs ≡ true
    → read_rest icnt (store_register c offs x) offs ≡ x
unfolding store_register read_rest
keeps_word-store icnt offs x c k = ground arith

not_starting :
    (offs : ℕ)
    → keeps_word offs ≡ true
    → ((slot offs == 0x2028) ≡ false)
      × ((slot offs == 0x2040) ≡ false)
      × ((slot offs == 0x2070) ≡ false)
not_starting offs k = ground arith

not_eeprom : (offs : ℕ) → keeps_word offs ≡ true → (offs == 0x30) ≡ false
not_eeprom offs k = ground arith

not_kept : {x : ℕ} → ◌≢◌ {A = Option ℕ} none (some x)
not_kept h = cc

module _ (V : Devices) (G : Graphics) where
  -- A write that leaves `x` to be read at `other`, and starts no transfer.
  pub record IsKept (icnt other x : ℕ) (w : World V G) (o : Outcome (Written V G)) : Type 0 where
    pub after : SgiMc
    pub ends : o ≡ ok (after, w, false)
    pub reads : read icnt after other ≡ x

  dma_write-IsKept :
      (icnt : ℕ) (c : SgiMc) (offs other x : ℕ) (w : World V G)
      → keeps (slot offs) ≡ true
      → slot other ≡ slot offs
      → IsKept icnt other x w (write V G c offs x w)
  unfolding write dma_write read dma_read
  dma_write-IsKept icnt c offs other x w k e =
      let l = read_slot-dma_store c (slot offs) x k in
      elim (Option-cases (dma_store c (slot offs) x)) [
        | inl n ↦ absurd (not_kept (rw n at l))
        | inr (d, n) ↦
            let kept : read_slot d (slot offs) ≡ some x = rw n at l in
            let back : read_slot d (slot other) ≡ some x = ap (read_slot d) e ∙ kept in
            record { after = d; ends = rw n refl; reads = rw back refl }
      ]

  no_start :
      (offs x : ℕ) (c : SgiMc) (w : World V G)
      → keeps_word offs ≡ true
      → dma_start V G c (slot offs) x w ≡ none
  unfolding dma_start
  no_start offs x c w k = let (a, b, d) = not_starting offs k in rw (a, b, d) refl

  word_write-IsKept :
      (icnt : ℕ) (c : SgiMc) (offs x : ℕ) (w : World V G)
      → keeps_word offs ≡ true
      → IsKept icnt offs x w (write V G c offs x w)
  unfolding write dma_write read dma_read
  word_write-IsKept icnt c offs x w k =
      let d = store_register c offs x in
      record {
        after = d;
        ends = rw (keeps_word-dma_store offs x c k, no_start offs x c w k, not_eeprom offs k) refl;
        reads = rw (keeps_word-slot offs d k) (keeps_word-store icnt offs x c k);
      }

  -- A write of a register of the DMA engine that keeps its value, at either word of its slot,
  -- is read back at either word, and a write of a CPU control word (the even word of the
  -- second excepted), a memory configuration, an access configuration or the GIO parameter is
  -- read back at the same offset; no transfer starts and nothing but the registers changes.
  pub write-IsKept :
      (icnt : ℕ) (c : SgiMc) (offs other x : ℕ) (w : World V G)
      → ((keeps (slot offs) && (slot other == slot offs)) || (keeps_word offs && (other == offs)))
        ≡ true
      → IsKept icnt other x w (write V G c offs x w)
  write-IsKept icnt c offs other x w h =
      elim (Bool-cases (keeps (slot offs) && (slot other == slot offs))) [
        | inl k ↦ dma_write-IsKept icnt c offs other x w (ground arith) (ground arith)
        | inr k ↦
            let e : other ≡ offs = ground arith in
            rw e (word_write-IsKept icnt c offs x w (ground arith))
      ]
