-- ===== src/Hpc/Fed.antt =====
-- What a transfer of the SCSI DMA to the device hands over: the bytes of the chain, in order, and
-- nothing else, where the device asks for each of them.
use interp_mips.Prelude.{
  ℕ, zero, suc, ◌+◌, ◌*◌, ◌%◌, ◌^◌, ◌≤◌, ◌≡◌, refl, sym, ap, arith, true, false, if◌then◌else◌,
  ◌==◌, u32, is_set, Bool-cases, inl, inr, ◌∙◌, List,
}
use mathlib.Core.Path.{subst}
use interp_mips.Hpc.ScsiDma.{
  ScsiChip, ch_fetch, ch_desc_done, rd_be32, is_eox, fetch_chain, Pump, move_byte, xfer_loop,
  in_state, desc_done, run_dma, write_ctrl,
}
use interp_mips.Hpc.Chain.{
  bytes_at, chain_bytes, chain_bytes-last, chain_bytes-next, feed, feed-append, Takes, Takes-append,
  settle,
}
use interp_mips.Hpc.Arming.{armed, take_control-armed}
use interp_mips.Hpc.Pump.{
  chain_ends, IsNext, ended-IsNext, chain_goes_on, fetched, moved, ended, moved-IsDrained,
  run_ended, run_off, off_at_end, same_bytes,
}

module _ (S : ScsiChip) where
  open S use {Chip, drq_pending, dma_w, residual, pause_transfer, reset}

  -- The channel has stopped, the memory is as before, and the device has taken the bytes.
  pub record IsFed (p q : Pump S) (bs : List ℕ) : Type 0 where
    pub off : q.chan.active ≡ false
    pub kept : q.bytes ≡ p.bytes
    pub fed : q.chip ≡ settle S (feed S bs p.chip)

  xfer_loop-fed :
      (n : ℕ) (p : Pump S)
      → p.chan.count ≡ n
      → p.chan.to_device ≡ true
      → Takes S (bytes_at p.bytes p.chan.cbp n) p.chip
      → ((xfer_loop S n p).chip ≡ feed S (bytes_at p.bytes p.chan.cbp n) p.chip)
        × (((xfer_loop S n p).chan.count == 0) ≡ true)
  unfolding xfer_loop move_byte feed bytes_at Takes
  xfer_loop-fed zero p e t k = (refl, ground arith)
  xfer_loop-fed (suc n) p e t k =
      let ih = xfer_loop-fed n (move_byte S p) (ground arith) (ground arith) (rw t (k.1)) in
      rw (k.0) (ih.0 ∙ rw t refl, ih.1)

  module _ (ch : ℕ) where
    -- The bytes of the descriptor that p fetches reach the device, all of them.
    abbrev first_bytes : Pump S → List ℕ
    first_bytes p =
        bytes_at p.bytes (rd_be32 p.bytes p.chan.nbdp)
          (rd_be32 p.bytes (u32 (p.chan.nbdp + 4)) % 2 ^ 14)

    moved-fed :
        (p : Pump S)
        → p.chan.to_device ≡ true
        → Takes S (first_bytes p) p.chip
        → ((moved S ch p).chip ≡ feed S (first_bytes p) p.chip)
          × (((moved S ch p).chan.count == 0) ≡ true)
    unfolding moved fetched fetch_chain
    moved-fed p t k = xfer_loop-fed (fetched S ch p).chan.count (fetched S ch p) refl t k

    ended-last :
        (p : Pump S)
        → is_eox (moved S ch p).chan.bc ≡ true
        → (ended S ch p).chip ≡ settle S (moved S ch p).chip
    unfolding ended desc_done
    ended-last p x = rw x refl

    ended-next :
        (p : Pump S)
        → is_eox (moved S ch p).chan.bc ≡ false
        → (ended S ch p).chip ≡ (moved S ch p).chip
    unfolding ended desc_done
    ended-next p x = rw x refl

    -- What the device takes after the first descriptor, at the state where the next one starts.
    after_first :
        (n : ℕ) (p : Pump S)
        → IsNext S ch p (ended S ch p)
        → feed S (first_bytes p) p.chip ≡ (ended S ch p).chip
        → Takes S
            (chain_bytes p.bytes n (rd_be32 p.bytes (u32 (p.chan.nbdp + 8))))
            (feed S (first_bytes p) p.chip)
        → Takes S (chain_bytes (ended S ch p).bytes n (ended S ch p).chan.nbdp) (ended S ch p).chip
    after_first n p next c k =
        subst (λ b. Takes S (chain_bytes b n (ended S ch p).chan.nbdp) (ended S ch p).chip)
          (sym next.bytes)
          (subst (λ desc. Takes S (chain_bytes p.bytes n desc) (ended S ch p).chip) (sym next.nbdp)
            (subst (Takes S (chain_bytes p.bytes n (rd_be32 p.bytes (u32 (p.chan.nbdp + 8))))) c k))

    run_dma-IsFed :
        (n k : ℕ) (p : Pump S)
        → p.chan.state ≡ ch_fetch
        → p.chan.active ≡ true
        → p.chan.to_device ≡ true
        → chain_ends n p.bytes p.chan.nbdp ≡ true
        → 3 * n ≤ k
        → Takes S (chain_bytes p.bytes n p.chan.nbdp) p.chip
        → IsFed p (run_dma S k ch p) (chain_bytes p.bytes n p.chan.nbdp)
    unfolding ended fetched fetch_chain
    run_dma-IsFed zero k p e a t h l g = absurd cc
    run_dma-IsFed (suc n) zero p e a t h l g = absurd (omega arith)
    run_dma-IsFed (suc n) (suc zero) p e a t h l g = absurd (omega arith)
    run_dma-IsFed (suc n) (suc (suc zero)) p e a t h l g = absurd (omega arith)
    run_dma-IsFed (suc n) (suc (suc (suc k))) p e a t h l g =
        let d = moved-IsDrained S ch p t in
        elim (Bool-cases (is_eox (moved S ch p).chan.bc)) [
          | inl x ↦
              let b = sym (ap is_eox d.bc) ∙ x in
              let now =
                subst (λ bs. Takes S bs p.chip) (chain_bytes-last p.bytes n p.chan.nbdp b) g in
              let m = moved-fed p t now in
              let r = run_ended S ch k p e a t (m.1) in
              let off = off_at_end S ch (in_state S ch_desc_done (moved S ch p)) x in
              let all = r ∙ run_off S ch k (ended S ch p) off in
              let bc = sym (ap is_eox d.bc) ∙ x in
              record {
                off = ap (λ q. q.chan.active) all ∙ off;
                kept =
                    ap (λ q. q.bytes) all
                    ∙ same_bytes S ch (in_state S ch_desc_done (moved S ch p))
                    ∙ d.bytes;
                fed =
                    ap (λ q. q.chip) all
                    ∙ ended-last p x
                    ∙ ap (settle S) (m.0)
                    ∙ ap (λ bs. settle S (feed S bs p.chip))
                        (sym (chain_bytes-last p.bytes n p.chan.nbdp bc));
              }
          | inr x ↦
              let b = sym (ap is_eox d.bc) ∙ x in
              let both =
                Takes-append S (first_bytes p)
                  (chain_bytes p.bytes n (rd_be32 p.bytes (u32 (p.chan.nbdp + 8)))) p.chip
                  (subst (λ bs. Takes S bs p.chip) (chain_bytes-next p.bytes n p.chan.nbdp b) g) in
              let m = moved-fed p t (both.0) in
              let r = run_ended S ch k p e a t (m.1) in
              let chip = ended-next p x ∙ m.0 in
              let next = ended-IsNext S ch p a t x in
              let more = chain_goes_on S ch n p a t x h in
              let ih =
                run_dma-IsFed n k (ended S ch p) next.state next.active next.to_device more
                  (omega arith) (after_first n p next (sym chip) (both.1)) in
              let bc = sym (ap is_eox d.bc) ∙ x in
              record {
                off = ap (λ q. q.chan.active) r ∙ ih.off;
                kept = ap (λ q. q.bytes) r ∙ ih.kept ∙ next.bytes;
                fed =
                    ap (λ q. q.chip) r
                    ∙ ih.fed
                    ∙ ap
                        (λ b.
                          settle S
                            (feed S (chain_bytes b n (ended S ch p).chan.nbdp) (ended S ch p).chip))
                        next.bytes
                    ∙ ap
                        (λ desc. settle S (feed S (chain_bytes p.bytes n desc) (ended S ch p).chip))
                        next.nbdp
                    ∙ ap
                        (λ c. settle S (
                          feed S (chain_bytes p.bytes n (rd_be32 p.bytes (u32 (p.chan.nbdp + 8))))
                            c))
                        chip
                    ∙ ap (settle S) (
                        sym (
                          feed-append S (first_bytes p)
                            (chain_bytes p.bytes n (rd_be32 p.bytes (u32 (p.chan.nbdp + 8))))
                            p.chip))
                    ∙ ap (λ bs. settle S (feed S bs p.chip))
                        (sym (chain_bytes-next p.bytes n p.chan.nbdp bc));
              }
        ]

    -- The pump of the channel that a write of x arms.
    start : ℕ → Pump S → Pump S
    start x p = record p {
      chan = armed x p.chan;
      chip = if is_set x 6 then reset p.chip else p.chip;
    }

    -- A write of the control register of an idle SCSI DMA channel that sets bit 4 and the
    -- direction to the device, with neither the mask nor the flush, with a chain of
    -- descriptors that ends within n and a device that asks for each of its bytes in turn,
    -- on fuel of 3 n rounds or more: the device, after its reset where bit 6 asks for it,
    -- has taken the bytes of the buffers of the chain to its end, in order and no others,
    -- and is told of the end where it has bytes left; the channel is off and the memory as
    -- before.
    pub write_ctrl-IsFed :
        (n fuel x : ℕ) (p : Pump S)
        → p.chan.active ≡ false
        → is_set x 4 ≡ true
        → is_set x 2 ≡ true
        → is_set x 5 ≡ false
        → is_set x 3 ≡ false
        → chain_ends n p.bytes p.chan.nbdp ≡ true
        → 3 * n ≤ fuel
        → Takes S (chain_bytes p.bytes n p.chan.nbdp) (if is_set x 6 then reset p.chip else p.chip)
        → IsFed
            (record p { chip = if is_set x 6 then reset p.chip else p.chip })
            (write_ctrl S fuel ch x p)
            (chain_bytes p.bytes n p.chan.nbdp)
    unfolding write_ctrl armed start
    write_ctrl-IsFed n fuel x p a four two five three h l g =
        let run =
          ap
            (λ d.
              let q = record p { chan = d; chip = if is_set x 6 then reset p.chip else p.chip } in
              if q.chan.active then run_dma S fuel ch q else q)
            (take_control-armed x p.chan a four two five three) in
        let f = run_dma-IsFed n fuel (start x p) refl refl refl h l g in
        record {
          off = ap (λ q. q.chan.active) run ∙ f.off;
          kept = ap (λ q. q.bytes) run ∙ f.kept;
          fed = ap (λ q. q.chip) run ∙ f.fed;
        }
