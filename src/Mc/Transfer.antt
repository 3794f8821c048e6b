-- ===== src/Mc/Transfer.antt =====
-- Where a DMA transfer of sgi_mc leaves the memory address, and the registers at its end.
use interp_mips.Prelude.{
  ℕ, zero, suc, ◌+◌, ◌-◌, ◌/◌, ◌%◌, ◌^◌, ◌<◌, ◌≤◌, ◌≡◌, refl, arith, Bool, true, false, ◌&&◌, ◌||◌,
  if◌then◌else◌, ◌==◌, u32, bits, is_set, sext16, Bool-cases, inl, inr, ◌∙◌, ap, sym,
}
use interp_mips.Memory.Sparse.{Devices}
use interp_mips.Mc.Registers.{SgiMc}
use interp_mips.Mc.Dma.{
  Graphics, World, stepped, put_bytes, take_bytes, to_host, fill, up, round_len, left_after,
  move_in, move_out, move_round, bytes_loop, width, zoom_loop, next_bytes, lines_loop, finished,
  dma_perform,
}

-- An address k bytes on, or back.
abbrev pub advanced : Bool → ℕ → ℕ → ℕ
advanced on mem k = if on then u32 (mem + k) else u32 (mem + 2 ^ 32 - k)

advanced_twice :
    (on : Bool) (mem k l : ℕ)
    → mem < 2 ^ 32
    → k + l < 2 ^ 32
    → advanced on (advanced on mem k) l ≡ advanced on mem (k + l)
advanced_twice on mem k l h b = ground arith

advanced_none : (on : Bool) (mem : ℕ) → mem < 2 ^ 32 → advanced on mem 0 ≡ mem
advanced_none on mem h = ground arith

advanced-lt : (on : Bool) (mem k : ℕ) → advanced on mem k < 2 ^ 32
advanced-lt on mem k = ground arith

rounds : (bytes : ℕ) → round_len bytes + (bytes - round_len bytes) ≡ bytes
rounds bytes = ground arith

-- The address after n lines, of which the first has `bytes` bytes.
abbrev pub address_after : SgiMc → ℕ → ℕ → ℕ → ℕ
address_after c zero bytes mem = mem
address_after c (suc n) bytes mem =
    address_after c n (width c) (u32 (advanced (up c) mem bytes + u32 (sext16 c.dma_stride)))

-- The registers after a transfer, and whether the processor is to look at its interrupts.
pub record IsDone (c : SgiMc) (mem : ℕ) (d : SgiMc) (poked : Bool) : Type 0 where
  pub address : d.dma_memadr ≡ mem
  pub no_count : d.dma_count ≡ 0
  pub no_lines : d.dma_size / 2 ^ 16 ≡ 0
  pub complete : is_set d.dma_run 3 ≡ true
  pub idle : is_set d.dma_run 6 ≡ false
  pub cause : (is_set c.dma_cause 3 || is_set c.dma_ctl 4) ≡ is_set d.dma_cause 3
  pub line : d.dma_irq ≡ (c.dma_irq || is_set c.dma_ctl 4)
  pub poke : poked ≡ is_set c.dma_ctl 4

finished-IsDone : (c : SgiMc) (mem : ℕ) → IsDone c mem (finished c mem) (is_set c.dma_ctl 4)
unfolding finished
finished-IsDone c mem = record {
  address = refl;
  no_count = refl;
  no_lines = omega arith;
  complete = ground arith;
  idle = ground arith;
  cause = ground arith;
  line = refl;
  poke = refl;
}

module _ (V : Devices) (G : Graphics) (c : SgiMc) where
  put_bytes-address :
      (on : Bool) (n i d mem : ℕ) (w : World V G)
      → mem < 2 ^ 32
      → n < 2 ^ 16
      → (put_bytes V G c on n i d mem w).0 ≡ advanced on mem n
  unfolding put_bytes
  put_bytes-address on zero i d mem w h b = ground arith
  put_bytes-address on (suc n) i d mem (m, np) h b =
      put_bytes-address on n (i + 1) d (stepped on mem 1) _ (ground arith) (omega arith)
      ∙ ground arith

  take_bytes-address :
      (on : Bool) (n i d mem : ℕ) (w : World V G)
      → mem < 2 ^ 32
      → n < 2 ^ 16
      → (take_bytes V G c on n i d mem w).1 ≡ advanced on mem n
  unfolding take_bytes
  take_bytes-address on zero i d mem w h b = ground arith
  take_bytes-address on (suc n) i d mem (m, np) h b =
      take_bytes-address on n (i + 1) _ (stepped on mem 1) _ (ground arith) (omega arith)
      ∙ ground arith

  module _ (plain : (to_host c && fill c) ≡ false) where
    move_round-address :
        (bytes mem : ℕ) (w : World V G)
        → mem < 2 ^ 32
        → (move_round V G c bytes mem w).0 ≡ advanced (up c) mem (round_len bytes)
    unfolding move_round move_in move_out
    move_round-address bytes mem w h = elim (Bool-cases (to_host c)) [
      | inl e ↦
          rw (plain, e) (put_bytes-address (up c) (round_len bytes) 0 _ mem _ h (ground arith))
      | inr e ↦
          rw (plain, e) (take_bytes-address (up c) (round_len bytes) 0 0 mem w h (ground arith))
    ]

    bytes_loop-address :
        (n bytes mem : ℕ) (w : World V G)
        → bytes ≤ n
        → bytes < 2 ^ 16
        → mem < 2 ^ 32
        → (bytes_loop V G n c bytes mem w).0 ≡ advanced (up c) mem bytes
    unfolding bytes_loop
    bytes_loop-address zero bytes mem w l b h = ground arith
    bytes_loop-address (suc n) bytes mem w l b h = elim (Bool-cases (bytes == 0)) [
      | inl e ↦ rw e (ground arith)
      | inr e ↦
          let r = move_round V G c bytes mem w in
          let a = move_round-address bytes mem w h in
          let q : left_after c bytes ≡ bytes - round_len bytes = rw plain refl in
          rw e (
            bytes_loop-address n (left_after c bytes) (r.0) (r.1) (rw q (ground arith))
              (rw q (ground arith)) (rw a (advanced-lt (up c) mem (round_len bytes)))
            ∙ rw (a, q)
                (advanced_twice (up c) mem (round_len bytes) (bytes - round_len bytes) h
                    (ground arith)
                  ∙ ap (advanced (up c) mem) (rounds bytes)))
    ]

    width-lt : width c < 2 ^ 16
    width-lt = omega arith

    zoom_loop-address :
        (n bytes mem : ℕ) (w : World V G)
        → bytes < 2 ^ 16
        → mem < 2 ^ 32
        → (zoom_loop V G (suc n) c bytes mem w).0 ≡ advanced (up c) mem bytes
    unfolding zoom_loop
    zoom_loop-address zero bytes mem w b h = bytes_loop-address bytes bytes mem w (omega arith) b h
    zoom_loop-address (suc n) bytes mem w b h =
        let a = bytes_loop-address bytes bytes mem w (omega arith) b h in
        zoom_loop-address n (width c) _ _ width-lt (ground arith) ∙ rw a (ground arith)

    lines_loop-address :
        (n zoom bytes mem : ℕ) (w : World V G)
        → 0 < zoom
        → 0 < bits c.dma_stride 16 10
        → bytes < 2 ^ 16
        → mem < 2 ^ 32
        → (lines_loop V G n c zoom bytes mem w).0 ≡ address_after c n bytes mem
    unfolding lines_loop
    lines_loop-address zero zoom bytes mem w z s b h = refl
    lines_loop-address (suc n) zero bytes mem w z s b h = absurd (omega arith)
    lines_loop-address (suc n) (suc zoom) bytes mem w z s b h =
        let a = zoom_loop-address zoom bytes mem w b h in
        let q : next_bytes c (suc zoom) bytes ≡ width c = ground arith in
        let r = zoom_loop V G (suc zoom) c bytes mem w in
        let start = u32 (r.0 + u32 (sext16 c.dma_stride)) in
        let e : start ≡ u32 (advanced (up c) mem bytes + u32 (sext16 c.dma_stride)) = rw a refl in
        let k = next_bytes c (suc zoom) bytes in
        lines_loop-address n (bits c.dma_stride 16 10) k start (r.1) s s (rw q width-lt)
          (omega arith)
        ∙ (ap (λ t. address_after c n t start) q ∙ ap (address_after c n (width c)) e)

  -- A DMA transfer that is no fill, with zooms above 0 and a 32-bit address, ends: the memory
  -- address is the one after all the bytes of all the lines, with the stride after each, in
  -- the direction of the mode, modulo 2 ^ 32; the count and the lines are 0, DMA_RUN says
  -- complete and not running, and where DMA_CTL enables it, and only there, the cause gets
  -- bit 3, the interrupt line rises and the processor is poked.
  pub dma_perform-IsDone :
      (w : World V G)
      → (to_host c && fill c) ≡ false
      → 0 < bits c.dma_count 16 10
      → 0 < bits c.dma_stride 16 10
      → c.dma_memadr < 2 ^ 32
      → IsDone c
          (address_after c (c.dma_size / 2 ^ 16) (c.dma_count % 2 ^ 16) c.dma_memadr)
          ((dma_perform V G c w).0)
          ((dma_perform V G c w).2)
  unfolding dma_perform
  dma_perform-IsDone w plain z s h =
      rw
        (sym (
          lines_loop-address plain (c.dma_size / 2 ^ 16) (bits c.dma_count 16 10)
            (c.dma_count % 2 ^ 16) c.dma_memadr w z s (omega arith) h))
        (finished-IsDone c _)
