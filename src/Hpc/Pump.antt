-- ===== src/Hpc/Pump.antt =====
-- The pump of the SCSI DMA of sgi_hpc ends, on a transfer to the device.
use interp_mips.Prelude.{
  ℕ, zero, suc, ◌+◌, ◌*◌, ◌≤◌, ◌≡◌, refl, sym, ap, arith, Bool, true, false, not, ◌&&◌, ◌||◌,
  if◌then◌else◌, ◌==◌, u32, Bool-cases, inl, inr, ◌∙◌,
}
use interp_mips.Hpc.ScsiDma.{
  ScsiChip, DmaState, ch_fetch, ch_xfer, ch_desc_done, rd_be32, is_eox, fetch_chain, Pump,
  move_byte, xfer_loop, in_state, desc_done, pump_round, run_dma,
}

-- Whether the chain of descriptors at `desc` has its end among its first n.
abbrev pub chain_ends : ℕ → (ℕ → ℕ) → ℕ → Bool
chain_ends zero bytes desc = false
chain_ends (suc n) bytes desc =
    is_eox (rd_be32 bytes (u32 (desc + 4))) || chain_ends n bytes (rd_be32 bytes (u32 (desc + 8)))

rest_of_chain : {b c : Bool} → (b || c) ≡ true → b ≡ false → c ≡ true
rest_of_chain h e = rw e at h

abbrev pub is_xfer : DmaState → Bool
is_xfer ch_xfer = true
is_xfer _ = false

module _ (S : ScsiChip) where
  open S use {drq_pending}

  -- The pump has nothing left to do: the channel is off, or waits for the device in the middle of a
  -- descriptor.
  abbrev pub is_resting : Pump S → Bool
  is_resting p =
      not p.chan.active
      || (is_xfer p.chan.state && (not (p.chan.count == 0) && not (drq_pending p.chip)))

  -- What the loop over the bytes leaves of a channel to the device.
  pub record IsDrained (p q : Pump S) : Type 0 where
    pub done : ((q.chan.count == 0) || not (drq_pending q.chip)) ≡ true
    pub bytes : q.bytes ≡ p.bytes
    pub bc : q.chan.bc ≡ p.chan.bc
    pub nbdp : q.chan.nbdp ≡ p.chan.nbdp
    pub active : q.chan.active ≡ p.chan.active
    pub to_device : q.chan.to_device ≡ true
    pub state : q.chan.state ≡ p.chan.state

  xfer_loop-IsDrained :
      (n : ℕ) (p : Pump S)
      → p.chan.count ≡ n
      → p.chan.to_device ≡ true
      → IsDrained p (xfer_loop S n p)
  unfolding xfer_loop move_byte
  xfer_loop-IsDrained zero p e t = record {
    done = ground arith;
    bytes = refl;
    bc = refl;
    nbdp = refl;
    active = refl;
    to_device = t;
    state = refl;
  }
  xfer_loop-IsDrained (suc n) p e t = elim (Bool-cases (drq_pending p.chip)) [
    | inl d ↦
        let ih = xfer_loop-IsDrained n (move_byte S p) (ground arith) (ground arith) in
        rw d (record {
          done = ih.done;
          bytes = ih.bytes ∙ rw t refl;
          bc = ih.bc ∙ rw t refl;
          nbdp = ih.nbdp ∙ rw t refl;
          active = ih.active ∙ rw t refl;
          to_device = ih.to_device;
          state = ih.state ∙ rw t refl;
        })
    | inr d ↦ rw d (record {
      done = rw d (ground arith);
      bytes = refl;
      bc = refl;
      nbdp = refl;
      active = refl;
      to_device = t;
      state = refl;
    })
  ]

  module _ (ch : ℕ) where
    unfoldable pub fetched : Pump S → Pump S
    fetched p = in_state S ch_xfer (record p { chan = fetch_chain p.bytes p.chan })

    run_fetch :
        (k : ℕ) (p : Pump S)
        → p.chan.state ≡ ch_fetch
        → p.chan.active ≡ true
        → run_dma S (suc k) ch p ≡ run_dma S k ch (fetched p)
    unfolding run_dma fetched
    run_fetch k p e a = rw (a, e) refl

    after_xfer : Pump S → Bool × Pump S
    after_xfer q = if q.chan.count == 0 then (true, in_state S ch_desc_done q) else (false, q)

    xfer_round :
        (k : ℕ) (q : Pump S)
        → (if (after_xfer q).0 then run_dma S k ch ((after_xfer q).1) else (after_xfer q).1)
          ≡ (if q.chan.count == 0 then run_dma S k ch (in_state S ch_desc_done q) else q)
    unfolding after_xfer
    xfer_round k q = elim (Bool-cases (q.chan.count == 0)) [ inl z ↦ rw z refl | inr z ↦ rw z refl ]

    run_active :
        (k : ℕ) (p : Pump S)
        → p.chan.active ≡ true
        → let r = pump_round S ch p.chan.state p in
          run_dma S (suc k) ch p ≡ (if r.0 then run_dma S k ch (r.1) else r.1)
    unfolding run_dma
    run_active k p a =
        ap
          (λ b.
            let r = pump_round S ch p.chan.state p in
            if b then (if r.0 then run_dma S k ch (r.1) else r.1) else p)
          a

    run_xfer :
        (k : ℕ) (p : Pump S)
        → p.chan.state ≡ ch_xfer
        → p.chan.active ≡ true
        → let q = xfer_loop S p.chan.count p in
          run_dma S (suc k) ch p
          ≡ (if q.chan.count == 0 then run_dma S k ch (in_state S ch_desc_done q) else q)
    unfolding pump_round after_xfer
    run_xfer k p e a =
        run_active k p a
        ∙ ap (λ t. let r = pump_round S ch t p in if r.0 then run_dma S k ch (r.1) else r.1) e
        ∙ xfer_round k (xfer_loop S p.chan.count p)

    run_done :
        (k : ℕ) (p : Pump S)
        → p.chan.state ≡ ch_desc_done
        → p.chan.active ≡ true
        → run_dma S (suc k) ch p ≡ run_dma S k ch (desc_done S ch p)
    unfolding run_dma
    run_done k p e a = rw (a, e) refl

    pub run_off : (k : ℕ) (p : Pump S) → p.chan.active ≡ false → run_dma S k ch p ≡ p
    unfolding run_dma
    run_off zero p a = refl
    run_off (suc k) p a = rw a refl

    pub off_at_end : (p : Pump S) → is_eox p.chan.bc ≡ true → (desc_done S ch p).chan.active ≡ false
    unfolding desc_done
    off_at_end p e = rw e refl

    next_in_chain :
        (p : Pump S)
        → is_eox p.chan.bc ≡ false
        → (desc_done S ch p).chan ≡ record (p.chan) { state = ch_fetch }
    unfolding desc_done
    next_in_chain p e = rw e refl

    pub same_bytes : (p : Pump S) → (desc_done S ch p).bytes ≡ p.bytes
    unfolding desc_done
    same_bytes p = elim (Bool-cases (is_eox p.chan.bc)) [ inl e ↦ rw e refl | inr e ↦ rw e refl ]

    -- The bytes of the descriptor that p fetches.
    unfoldable pub moved : Pump S → Pump S
    moved p = xfer_loop S (fetched p).chan.count (fetched p)

    unfoldable pub ended : Pump S → Pump S
    ended p = desc_done S ch (in_state S ch_desc_done (moved p))

    pub moved-IsDrained : (p : Pump S) → p.chan.to_device ≡ true → IsDrained (fetched p) (moved p)
    unfolding moved fetched fetch_chain
    moved-IsDrained p t = xfer_loop-IsDrained (fetched p).chan.count (fetched p) refl t

    run_moved :
        (k : ℕ) (p : Pump S)
        → p.chan.state ≡ ch_fetch
        → p.chan.active ≡ true
        → run_dma S (suc (suc k)) ch p ≡ (
            if (moved p).chan.count == 0
            then run_dma S k ch (in_state S ch_desc_done (moved p))
            else moved p)
    unfolding moved fetched fetch_chain
    run_moved k p e a = run_fetch (suc k) p e a ∙ run_xfer k (fetched p) refl a

    rest_in_xfer :
        (q : Pump S)
        → q.chan.state ≡ ch_xfer
        → (q.chan.count == 0) ≡ false
        → ((q.chan.count == 0) || not (drq_pending q.chip)) ≡ true
        → is_resting q ≡ true
    rest_in_xfer q e z h = ground arith

    run_waits :
        (k : ℕ) (p : Pump S)
        → p.chan.state ≡ ch_fetch
        → p.chan.active ≡ true
        → p.chan.to_device ≡ true
        → ((moved p).chan.count == 0) ≡ false
        → is_resting (run_dma S (suc (suc k)) ch p) ≡ true
    unfolding fetched fetch_chain
    run_waits k p e a t z =
        let d = moved-IsDrained p t in
        ap is_resting (run_moved k p e a)
        ∙ ap
            (λ b.
              is_resting
                (if b then run_dma S k ch (in_state S ch_desc_done (moved p)) else moved p))
            z
        ∙ rest_in_xfer (moved p) d.state z d.done

    pub run_ended :
        (k : ℕ) (p : Pump S)
        → p.chan.state ≡ ch_fetch
        → p.chan.active ≡ true
        → p.chan.to_device ≡ true
        → ((moved p).chan.count == 0) ≡ true
        → run_dma S (suc (suc (suc k))) ch p ≡ run_dma S k ch (ended p)
    unfolding fetched fetch_chain ended
    run_ended k p e a t z =
        run_moved (suc k) p e a
        ∙ ap (λ b. if b then run_dma S (suc k) ch (in_state S ch_desc_done (moved p)) else moved p)
            z
        ∙ run_done k (in_state S ch_desc_done (moved p)) refl ((moved-IsDrained p t).active ∙ a)

    -- The channel is at the start of the next descriptor, of those in p's memory.
    pub record IsNext (p q : Pump S) : Type 0 where
      pub state : q.chan.state ≡ ch_fetch
      pub active : q.chan.active ≡ true
      pub to_device : q.chan.to_device ≡ true
      pub bytes : q.bytes ≡ p.bytes
      pub nbdp : q.chan.nbdp ≡ rd_be32 p.bytes (u32 (p.chan.nbdp + 8))

    pub ended-IsNext :
        (p : Pump S)
        → p.chan.active ≡ true
        → p.chan.to_device ≡ true
        → is_eox (moved p).chan.bc ≡ false
        → IsNext p (ended p)
    unfolding ended fetched fetch_chain
    ended-IsNext p a t x =
        let d = moved-IsDrained p t in
        let c = next_in_chain (in_state S ch_desc_done (moved p)) x in
        record {
          state = ap (λ q. q.state) c;
          active = ap (λ q. q.active) c ∙ d.active ∙ a;
          to_device = ap (λ q. q.to_device) c ∙ d.to_device;
          bytes = same_bytes (in_state S ch_desc_done (moved p)) ∙ d.bytes;
          nbdp = ap (λ q. q.nbdp) c ∙ d.nbdp;
        }

    pub chain_goes_on :
        (n : ℕ) (p : Pump S)
        → p.chan.active ≡ true
        → p.chan.to_device ≡ true
        → is_eox (moved p).chan.bc ≡ false
        → chain_ends (suc n) p.bytes p.chan.nbdp ≡ true
        → chain_ends n (ended p).bytes (ended p).chan.nbdp ≡ true
    unfolding fetched fetch_chain
    chain_goes_on n p a t x h =
        let next = ended-IsNext p a t x in
        ap (λ b. chain_ends n b (ended p).chan.nbdp) next.bytes
        ∙ ap (λ desc. chain_ends n p.bytes desc) next.nbdp
        ∙ rest_of_chain h (sym (ap is_eox (moved-IsDrained p t).bc) ∙ x)

    rest_at_end :
        (k : ℕ) (p : Pump S)
        → is_eox (moved p).chan.bc ≡ true
        → is_resting (run_dma S k ch (ended p)) ≡ true
    unfolding ended
    rest_at_end k p x =
        let off = off_at_end (in_state S ch_desc_done (moved p)) x in
        ap is_resting (run_off k (ended p) off)
        ∙ ap (λ b. is_resting (record (ended p) { chan = record ((ended p).chan) { active = b } }))
            off

    -- The pump of the SCSI DMA, to the device, ends: from an active channel at the fetch of
    -- a chain of descriptors that ends within n, with any device, 3 n rounds or more leave
    -- the channel off, or in the middle of a descriptor whose next byte the device does not
    -- ask for, so that the loop of the code stops there.
    pub run_dma-IsResting :
        (n k : ℕ) (p : Pump S)
        → p.chan.state ≡ ch_fetch
        → p.chan.active ≡ true
        → p.chan.to_device ≡ true
        → chain_ends n p.bytes p.chan.nbdp ≡ true
        → 3 * n ≤ k
        → is_resting (run_dma S k ch p) ≡ true
    run_dma-IsResting zero k p e a t h l = ground arith
    run_dma-IsResting (suc n) zero p e a t h l = ground arith
    run_dma-IsResting (suc n) (suc zero) p e a t h l = ground arith
    run_dma-IsResting (suc n) (suc (suc zero)) p e a t h l = ground arith
    run_dma-IsResting (suc n) (suc (suc (suc k))) p e a t h l =
        elim (Bool-cases ((moved p).chan.count == 0)) [
          | inl z ↦
              ap is_resting (run_ended k p e a t z) ∙ elim (Bool-cases (is_eox (moved p).chan.bc)) [
                | inl x ↦ rest_at_end k p x
                | inr x ↦
                    let next = ended-IsNext p a t x in
                    run_dma-IsResting n k (ended p) next.state next.active next.to_device
                      (chain_goes_on n p a t x h) (ground arith)
              ]
          | inr z ↦ run_waits (suc k) p e a t z
        ]
