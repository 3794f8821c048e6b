-- ===== src/Newport/Logic.antt =====
-- What a write of the framebuffer leaves, bit by bit.
use interp_mips.Prelude.{
  ℕ, zero, suc, ◌<◌, ◌≡◌, ◌≢◌, ◌⊎◌, inl, inr, refl, ap, ◌∙◌, arith, bit_and, bit_or, bit_xor, Bool,
  true, false, if◌then◌else◌, ◌||◌, ◌&&◌, not,
}
use interp_mips.Newport.Bit.{
  bit_at, not32, bit_at-bit_and, bit_at-bit_or, bit_at-bit_xor, bit_at-not32,
}
use interp_mips.Newport.Rb2.{
  Rb2, Buffer, buf_rgbci, buf_cidaux, contents, at_ptr, put_in, rb_read, rb_store, lanes, planes_up,
  logic, rb_write,
}

-- The entry of a table of four bits for a source and a destination bit, the lowest for both set.
abbrev pub truth : ℕ → Bool → Bool → Bool
truth o true true = bit_at o 0
truth o true false = bit_at o 1
truth o false true = bit_at o 2
truth o false false = bit_at o 3

-- Whether the bits below n of 0xffffff are set.
abbrev all_ones : ℕ → Bool
all_ones zero = true
all_ones (suc n) = bit_at 0xffffff n && all_ones n

ones_below : (n k : ℕ) → all_ones n ≡ true → k < n → bit_at 0xffffff k ≡ true
ones_below zero k h l = absurd (omega arith)
ones_below (suc n) k h l = ground (arith, ones_below n k)

ones_at : (k : ℕ) → k < 24 → bit_at 0xffffff k ≡ true
ones_at k h = ones_below 24 k refl h

pub zero_at : (k : ℕ) → bit_at 0 k ≡ false
zero_at zero = refl
zero_at (suc k) = zero_at k

module _ (src dst k : ℕ) (h : k < 24) where
  flipped : (x : ℕ) → bit_at (not32 x) k ≡ not (bit_at x k)
  flipped x = bit_at-not32 k x (omega arith)

  pub bit_at-logic :
      (o : ℕ) → o < 16 → bit_at (logic o src dst) k ≡ truth o (bit_at src k) (bit_at dst k)
  unfolding logic
  bit_at-logic o l = ground (
    arith,
    zero_at k,
    ones_at k h,
    bit_at-bit_and k src dst,
    bit_at-bit_and k src (not32 dst),
    bit_at-bit_and k (not32 src) dst,
    bit_at-bit_or k src dst,
    bit_at-bit_or k src (not32 dst),
    bit_at-bit_or k (not32 src) dst,
    bit_at-bit_xor k src dst,
    flipped src,
    flipped dst,
    flipped (bit_and src dst),
    flipped (bit_or src dst),
    flipped (bit_xor src dst),
  )

-- A word merged under a mask has the bits of the new one in the mask and of the old one outside.
bit_at-merged :
    (k old new m : ℕ)
    → k < 32
    → bit_at (bit_or (bit_and old (not32 m)) (bit_and new m)) k
      ≡ (if bit_at m k then bit_at new k else bit_at old k)
bit_at-merged k old new m h = ground (
  bit_at-bit_or k (bit_and old (not32 m)) (bit_and new m),
  bit_at-bit_and k old (not32 m),
  bit_at-bit_and k new m,
  bit_at-not32 k m h,
  arith,
)

contents-put_in : (b : Buffer) (i v : ℕ) (r : Rb2) → contents b (put_in b i v r) i ≡ v
contents-put_in buf_rgbci i v r = ground arith
contents-put_in buf_cidaux i v r = ground arith

elsewhere :
    (b c : Buffer) (i j v : ℕ) (r : Rb2)
    → (c ≢ b) ⊎ (j ≢ i)
    → contents c (put_in b i v r) j ≡ contents c r j
elsewhere buf_rgbci buf_rgbci i j v r (inl d) = absurd (d refl)
elsewhere buf_rgbci buf_rgbci i j v r (inr d) = ground arith
elsewhere buf_rgbci buf_cidaux i j v r d = refl
elsewhere buf_cidaux buf_rgbci i j v r d = refl
elsewhere buf_cidaux buf_cidaux i j v r (inl d) = absurd (d refl)
elsewhere buf_cidaux buf_cidaux i j v r (inr d) = ground arith

-- Bit k of what a write of a colour puts where the masks let it through.
abbrev pub drawn : ℕ → Rb2 → ℕ → Bool
drawn src r k =
    let s = planes_up r.plane_enable (lanes r.draw_depth src) in
    if r.blend || r.fast_clear
    then bit_at s k
    else truth r.logicop (bit_at s k) (bit_at (rb_read r) k)

pub record IsDrawn (src : ℕ) (r after : Rb2) : Type 0 where
  pub pixel :
      (k : ℕ)
      → k < 24
      → bit_at (contents r.ptr_buffer after r.ptr_index) k ≡ (
          if bit_at r.write_mask k && bit_at r.global_mask k
          then drawn src r k
          else bit_at (at_ptr r) k)
  pub others :
      (b : Buffer) (i : ℕ)
      → (b ≢ r.ptr_buffer) ⊎ (i ≢ r.ptr_index)
      → contents b after i ≡ contents b r i

stored :
    (v k : ℕ) (r : Rb2)
    → k < 24
    → bit_at (contents r.ptr_buffer (rb_store v r) r.ptr_index) k ≡ (
        if bit_at r.write_mask k && bit_at r.global_mask k then bit_at v k else bit_at (at_ptr r) k)
unfolding rb_store
stored v k r h =
    let m = bit_and r.write_mask r.global_mask in
    ap (λ t. bit_at t k)
      (contents-put_in r.ptr_buffer r.ptr_index
        (bit_or (bit_and (at_ptr r) (not32 m)) (bit_and v m)) r)
    ∙ bit_at-merged k (at_ptr r) v m (omega arith)
    ∙ ap (λ t. if t then bit_at v k else bit_at (at_ptr r) k)
        (bit_at-bit_and k r.write_mask r.global_mask)

-- The word that a write of a colour stores.
unfoldable pub value : ℕ → Rb2 → ℕ
value src r =
    let s = planes_up r.plane_enable (lanes r.draw_depth src) in
    if r.blend || r.fast_clear then s else logic r.logicop s (rb_read r)

one_store :
    (b : Bool) (s v : ℕ) (r : Rb2)
    → (if b then rb_store s r else rb_store v r) ≡ rb_store (if b then s else v) r
one_store true s v r = refl
one_store false s v r = refl

pub bit_at-value :
    (b : Bool) (s v k : ℕ) (x : Bool)
    → bit_at v k ≡ x
    → bit_at (if b then s else v) k ≡ (if b then bit_at s k else x)
bit_at-value true s v k x e = refl
bit_at-value false s v k x e = e

pub rb_write-value : (src : ℕ) (r : Rb2) → rb_write src r ≡ rb_store (value src r) r
unfolding rb_write value
rb_write-value src r = one_store (r.blend || r.fast_clear) _ _ r

unstored :
    (v i : ℕ) (b : Buffer) (r : Rb2)
    → (b ≢ r.ptr_buffer) ⊎ (i ≢ r.ptr_index)
    → contents b (rb_store v r) i ≡ contents b r i
unfolding rb_store
unstored v i b r d = elsewhere r.ptr_buffer b r.ptr_index i _ r d

-- A write of a colour at the pointer of the framebuffer, with a logic op below 16: each of the
-- lower 24 bits of the word keeps its value where the write mask or the global mask is clear,
-- and else is the bit of the colour in its lanes, if blending or fast clear is on, or the entry
-- of the logic op, read as a truth table, for that bit and the bit read; every other word of
-- both buffers is as before.
pub rb_write-IsDrawn : (src : ℕ) (r : Rb2) → r.logicop < 16 → IsDrawn src r (rb_write src r)
unfolding value
rb_write-IsDrawn src r l = record {
  pixel = λ k h.
      ap (λ t. bit_at (contents r.ptr_buffer t r.ptr_index) k) (rb_write-value src r)
      ∙ stored (value src r) k r h
      ∙ ap (λ t. if bit_at r.write_mask k && bit_at r.global_mask k then t else bit_at (at_ptr r) k)
          (bit_at-value (r.blend || r.fast_clear) _ _ k _ (bit_at-logic _ _ k h r.logicop l));
  others =
      λ b i d. ap (λ t. contents b t i) (rb_write-value src r) ∙ unstored (value src r) i b r d;
}
