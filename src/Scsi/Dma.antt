-- ===== src/Scsi/Dma.antt =====
-- The SCSI controller behind the SCSI DMA of sgi_hpc: a WRITE whose data the channel fetches from
-- the memory of the guest.
use interp_mips.Prelude.{
  ℕ, zero, suc, ◌+◌, ◌-◌, ◌*◌, ◌<◌, ◌≤◌, ◌≡◌, refl, sym, ap, ◌∙◌, arith, true, false, if◌then◌else◌,
  ltb, leb, is_set, List, [], ◌∷◌, ◌<<<◌,
}
use mathlib.Core.Path.{subst}
use interp_mips.Hpc.ScsiDma.{ScsiChip, Pump, write_ctrl}
use interp_mips.Hpc.Pump.{chain_ends}
use interp_mips.Hpc.Chain.{chain_bytes, feed, Takes, settle}
use interp_mips.Hpc.Fed.{write_ctrl-IsFed}
use interp_mips.Scsi.Chip.{
  Disk, ph_idle, SgiScsi, dma_w, dma_r, give_byte, residual, pause_transfer, reset, is_data,
}
use interp_mips.Scsi.Command.{cdb_blocks}
use interp_mips.Scsi.Blocks.{bytes_from, bytes_from-agree, give, going_out}
use interp_mips.Scsi.Transfer.{
  issue, lba_of, commanded, issue-select, commanded-IsProgrammed, writing, select-write,
}
use interp_mips.Scsi.RoundTrip.{IsWritten, write-IsWritten}

abbrev pub length : List ℕ → ℕ
length [] = 0
length (b ∷ bs) = suc (length bs)

abbrev pub list_byte : List ℕ → ℕ → ℕ
list_byte [] i = 0
list_byte (b ∷ bs) zero = b
list_byte (b ∷ bs) (suc i) = list_byte bs i

bytes_from_shift : (n i : ℕ) (f : ℕ → ℕ) → bytes_from n (i + 1) f ≡ bytes_from n i (λ k. f (k + 1))
bytes_from_shift zero i f = refl
bytes_from_shift (suc n) i f = ap (λ bs. f (i + 1) ∷ bs) (bytes_from_shift n (i + 1) f)

list_byte_next : (b : ℕ) (bs : List ℕ) (k : ℕ) → list_byte (b ∷ bs) (k + 1) ≡ list_byte bs k
list_byte_next b bs k = ground arith

-- A list is its bytes.
bytes_from-list_byte : (bs : List ℕ) → bytes_from (length bs) 0 (list_byte bs) ≡ bs
bytes_from-list_byte [] = refl
bytes_from-list_byte (b ∷ bs) =
    ap (λ cs. b ∷ cs)
      (bytes_from_shift (length bs) 0 (list_byte (b ∷ bs))
        ∙ bytes_from-agree (length bs) 0 _ (list_byte bs) (λ k l u. list_byte_next b bs k)
        ∙ bytes_from-list_byte bs)

module _ (D : Disk) where
  abbrev pub scsi_chip : ScsiChip
  scsi_chip = record {
    Chip = SgiScsi D;
    drq_pending = λ c. c.drq;
    dma_w = λ c b. dma_w D b c;
    dma_r = dma_r D;
    residual = residual D;
    pause_transfer = pause_transfer D;
    reset = reset D;
  }

  feed-give :
      (n i : ℕ) (f : ℕ → ℕ) (c : SgiScsi D) → feed scsi_chip (bytes_from n i f) c ≡ give D n i f c
  unfolding feed
  feed-give zero i f c = refl
  feed-give (suc n) i f c = feed-give n (i + 1) f (dma_w D (f i) c)

  -- In a data phase the controller asks for each byte of its buffer.
  Takes-all :
      (n i : ℕ) (f b : ℕ → ℕ) (d : SgiScsi D)
      → d.size ≡ i + n
      → d.drq ≡ true
      → Takes scsi_chip (bytes_from n i f) (going_out D b i d)
  unfolding Takes dma_w give_byte
  Takes-all zero i f b d e r = tt
  Takes-all (suc zero) i f b d e r = (r, tt)
  Takes-all (suc (suc n)) i f b d e r =
      let first : leb d.size i ≡ false = ground arith in
      let more : leb d.size (i + 1) ≡ false = ground arith in
      (r, rw (first, more) (Takes-all (suc n) (i + 1) f _ d (omega arith) r))

  settle_idle : (c : SgiScsi D) → c.phase ≡ ph_idle → settle scsi_chip c ≡ c
  unfolding residual
  settle_idle c e =
      ap (λ t. if ltb 0 (if is_data D t then c.size - c.pos else 0) then pause_transfer D c else c)
        e

  module _ (a : ℕ → ℕ) (hi low : ℕ) (d : SgiScsi D) (ch n fuel x : ℕ) (p : Pump scsi_chip)
      (idle : d.phase ≡ ph_idle) (some_blocks : 0 < hi <<< 8 + low)
      (issued : p.chip ≡ issue D 0x2a a hi low d)
      (whole : length (chain_bytes p.bytes n p.chan.nbdp) ≡ (hi <<< 8 + low) * 512) where
    abbrev chain : List ℕ
    chain = chain_bytes p.bytes n p.chan.nbdp

    Takes-chain : Takes scsi_chip chain p.chip
    Takes-chain =
        let q = commanded D 0x2a a hi low d in
        let g = commanded-IsProgrammed D 0x2a a hi low d in
        let pos : 0 < cdb_blocks q.regs = omega (arith, g.blocks_at) in
        subst (λ c. Takes scsi_chip chain c)
          (sym (
            issued
            ∙ issue-select D 0x2a a hi low d
            ∙ select-write D q (g.phase ∙ idle) g.dest g.lun pos g.op_at))
          (subst (λ bs. Takes scsi_chip bs (going_out D (λ i. 0) 0 (writing D q)))
            (bytes_from-list_byte chain)
            (Takes-all (length chain) 0 (list_byte chain) (λ i. 0) (writing D q)
              (omega (arith, g.blocks_at)) refl))

    fed_chain :
        feed scsi_chip chain p.chip
        ≡ give D ((hi <<< 8 + low) * 512) 0 (list_byte chain) (issue D 0x2a a hi low d)
    fed_chain =
        ap (λ bs. feed scsi_chip bs p.chip) (sym (bytes_from-list_byte chain))
        ∙ feed-give (length chain) 0 (list_byte chain) p.chip
        ∙ ap (λ k. give D k 0 (list_byte chain) p.chip) whole
        ∙ ap (give D ((hi <<< 8 + low) * 512) 0 (list_byte chain)) issued

    -- A WRITE of one block or more that the driver programs through the ports of the idle
    -- SCSI controller, without direct writes, whose data a SCSI DMA channel then fetches:
    -- where the write of its control register arms the idle channel to the device, with no
    -- flush, mask or reset, and the chain of descriptors ends within n and names as many
    -- bytes as the blocks have, on fuel of 3 n rounds or more, the controller ends idle
    -- with a successful status, GOOD from the disk and an interrupt; each block of the
    -- command reads as the bytes of the chain, in order, and every other block as before.
    pub write_ctrl-IsWritten :
        d.direct_write ≡ false
        → p.chan.active ≡ false
        → is_set x 4 ≡ true
        → is_set x 2 ≡ true
        → is_set x 5 ≡ false
        → is_set x 3 ≡ false
        → is_set x 6 ≡ false
        → chain_ends n p.bytes p.chan.nbdp ≡ true
        → 3 * n ≤ fuel
        → IsWritten D d
            (write_ctrl scsi_chip fuel ch x p).chip
            (lba_of D a)
            (hi <<< 8 + low)
            (list_byte (chain_bytes p.bytes n p.chan.nbdp))
    write_ctrl-IsWritten cow off four two five three six h l =
        let stay = ap (λ t. if t then reset D p.chip else p.chip) six in
        let fed =
          write_ctrl-IsFed scsi_chip ch n fuel x p off four two five three h l
            (subst (λ c. Takes scsi_chip chain c) (sym stay) Takes-chain) in
        let w = give D ((hi <<< 8 + low) * 512) 0 (list_byte chain) (issue D 0x2a a hi low d) in
        let v = write-IsWritten D a hi low (list_byte chain) d idle cow some_blocks in
        let same =
          fed.fed
          ∙ ap (λ c. settle scsi_chip (feed scsi_chip chain c)) stay
          ∙ ap (settle scsi_chip) fed_chain
          ∙ settle_idle w v.idle in
        subst (λ c. IsWritten D d c (lba_of D a) (hi <<< 8 + low) (list_byte chain)) (sym same) v
