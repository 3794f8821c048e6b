-- ===== src/Newport/Lane.antt =====
-- The write of one lane of the span kernel, `sgi_newport::span_fast` (sgi_newport.cc), which merges
-- by the truth table of the logic op and not by the switch of `rb_write`.
use interp_mips.Prelude.{
  ℕ, zero, suc, ◌+◌, ◌-◌, ◌/◌, ◌^◌, ◌≤◌, ◌<◌, ◌≡◌, inl, inr, refl, sym, ap, ◌∙◌, arith, bit_and,
  bit_or, Bool, true, false, if◌then◌else◌, ◌||◌, ◌&&◌, not, is_set, ltb, Bool-cases,
}
use interp_mips.Newport.Bit.{
  bit_at, not32, is_set-bit_at, bit_at-bit_and, bit_at-bit_or, bit_at-not32, bit_at-flip,
}
use interp_mips.Newport.Rb2.{
  Rb2, Buffer, buf_rgbci, buf_cidaux, contents, put_in, rb_set_addr, rb_store, lanes, planes_up,
  rb_write,
}
use interp_mips.Newport.Logic.{truth, bit_at-logic, value, zero_at, rb_write-value, bit_at-value}
use native.Mathlib.Nat.{pow-suc}

-- `BITN(op, i) ? ~0u : 0`.
abbrev pub all_or_none : ℕ → ℕ → ℕ
all_or_none op i = if is_set op i then 2 ^ 32 - 1 else 0

-- `(v & d & t0) | (v & ~d & t1) | (~v & d & t2) | (~v & ~d & t3)`.
unfoldable pub table_logic : ℕ → ℕ → ℕ → ℕ
table_logic op v d =
    bit_or
      (bit_or
        (bit_or (bit_and (bit_and v d) (all_or_none op 0))
          (bit_and (bit_and v (not32 d)) (all_or_none op 1)))
        (bit_and (bit_and (not32 v) d) (all_or_none op 2)))
      (bit_and (bit_and (not32 v) (not32 d)) (all_or_none op 3))

-- `nv`: the colour c in its lanes and planes, after the logic op unless it is drawn as it is.
unfoldable pub lane_value : ℕ → ℕ → Rb2 → ℕ
lane_value c i r =
    let v = planes_up r.plane_enable (lanes r.draw_depth c) in
    let lv = table_logic r.logicop v (contents r.dest r i / 2 ^ r.src_shift) in
    if r.blend || r.fast_clear then v else lv

-- The word of a lane of colour c: `row[k]` at index i of the buffer drawn to.
unfoldable pub lane_word : ℕ → ℕ → Rb2 → ℕ
lane_word c i r =
    let m = bit_and r.write_mask r.global_mask in
    let old = contents r.dest r i in bit_or (bit_and old (not32 m)) (bit_and (lane_value c i r) m)

-- `row[k] = pass[k] ? merged : old`.
abbrev pub write_lane : Bool → ℕ → ℕ → Rb2 → Rb2
write_lane pass c i r = put_in r.dest i (if pass then lane_word c i r else contents r.dest r i) r

-- Numbers with the same bits are the same.
same_bits-eq : (n x y : ℕ) → x ≤ n → y ≤ n → ((k : ℕ) → bit_at x k ≡ bit_at y k) → x ≡ y
same_bits-eq zero x y h l e = omega arith
same_bits-eq (suc n) x y h l e =
    let low = e 0 in
    let high = same_bits-eq n (x / 2) (y / 2) (omega arith) (omega arith) (λ k. e (suc k)) in
    ground arith

pub bits-eq : (x y : ℕ) → ((k : ℕ) → bit_at x k ≡ bit_at y k) → x ≡ y
bits-eq x y e = same_bits-eq (x + y) x y (omega arith) (omega arith) e

bit_at-all_or_none : (op i k : ℕ) → k < 32 → bit_at (all_or_none op i) k ≡ is_set op i
bit_at-all_or_none op i k h = elim (Bool-cases (is_set op i)) [
  | inl e ↦
      ap (λ t. bit_at (if t then 2 ^ 32 - 1 else 0) k) e
      ∙ bit_at-flip 32 k 0 h (omega arith)
      ∙ ap not (zero_at k)
      ∙ sym e
  | inr e ↦ ap (λ t. bit_at (if t then 2 ^ 32 - 1 else 0) k) e ∙ zero_at k ∙ sym e
]

bit_at-above : (n k x : ℕ) → x < 2 ^ n → n ≤ k → bit_at x k ≡ false
bit_at-above zero k x h l = ap (λ t. bit_at t k) (omega arith) ∙ zero_at k
bit_at-above (suc n) zero x h l = absurd (omega arith)
bit_at-above (suc n) (suc k) x h l =
    bit_at-above n k (x / 2) (omega (arith, pow-suc 2 n)) (omega arith)

four_terms :
    (op : ℕ) (a b : Bool)
    → (((((a && b) && is_set op 0) || ((a && not b) && is_set op 1))
          || ((not a && b) && is_set op 2))
        || ((not a && not b) && is_set op 3))
      ≡ truth op a b
four_terms op true true = ground (arith, is_set-bit_at 0 op)
four_terms op true false = ground (arith, is_set-bit_at 1 op)
four_terms op false true = ground (arith, is_set-bit_at 2 op)
four_terms op false false = is_set-bit_at 3 op

bit_at-table_logic :
    (op v d k : ℕ) → k < 32 → bit_at (table_logic op v d) k ≡ truth op (bit_at v k) (bit_at d k)
unfolding table_logic
bit_at-table_logic op v d k h =
    simp
      (
        bit_at-bit_or k,
        bit_at-bit_and k,
        bit_at-not32 k v h,
        bit_at-not32 k d h,
        bit_at-all_or_none op 0 k h,
        bit_at-all_or_none op 1 k h,
        bit_at-all_or_none op 2 k h,
        bit_at-all_or_none op 3 k h,
      )
      (four_terms op (bit_at v k) (bit_at d k))

-- Two words merged under a mask of 24 bits are the same where their lower 24 bits are.
merged-agree :
    (old v w m : ℕ)
    → ((k : ℕ) → 24 ≤ k → bit_at m k ≡ false)
    → ((k : ℕ) → k < 24 → bit_at v k ≡ bit_at w k)
    → bit_or (bit_and old (not32 m)) (bit_and v m) ≡ bit_or (bit_and old (not32 m)) (bit_and w m)
merged-agree old v w m h e =
    ap (λ t. bit_or (bit_and old (not32 m)) t) (bits-eq (bit_and v m) (bit_and w m) same)
  where
    same : (k : ℕ) → bit_at (bit_and v m) k ≡ bit_at (bit_and w m) k
    same k = elim (Bool-cases (ltb k 24)) [
      | inl l ↦
          bit_at-bit_and k v m
          ∙ ap (λ t. t && bit_at m k) (e k (ground arith))
          ∙ sym (bit_at-bit_and k w m)
      | inr l ↦
          let z = h k (ground arith) in ground (arith, bit_at-bit_and k v m, bit_at-bit_and k w m)
    ]

same_contents :
    (d b : Buffer) (i j a w : ℕ) (r : Rb2)
    → contents b (put_in d i w r) j ≡ contents b (put_in d i w (rb_set_addr a r)) j
same_contents buf_rgbci buf_rgbci i j a w r = refl
same_contents buf_rgbci buf_cidaux i j a w r = refl
same_contents buf_cidaux buf_rgbci i j a w r = refl
same_contents buf_cidaux buf_cidaux i j a w r = refl

pub seen : (d : Buffer) (i a : ℕ) (r : Rb2) → contents d (rb_set_addr a r) i ≡ contents d r i
seen buf_rgbci i a r = refl
seen buf_cidaux i a r = refl

masked :
    (r : Rb2)
    → r.write_mask < 2 ^ 24
    → (k : ℕ) → 24 ≤ k
    → bit_at (bit_and r.write_mask r.global_mask) k ≡ false
masked r h k l =
    bit_at-bit_and k r.write_mask r.global_mask
    ∙ ap (λ t. t && bit_at r.global_mask k) (bit_at-above 24 k r.write_mask h l)

same_value :
    (c i : ℕ) (r : Rb2)
    → r.logicop < 16
    → (k : ℕ) → k < 24
    → bit_at (value c (rb_set_addr i r)) k ≡ bit_at (lane_value c i r) k
unfolding value lane_value
same_value c i r l k u =
    let s = planes_up r.plane_enable (lanes r.draw_depth c) in
    let d = contents r.dest r i / 2 ^ r.src_shift in
    let e = contents r.dest (rb_set_addr i r) i / 2 ^ r.src_shift in
    bit_at-value (r.blend || r.fast_clear) s _ k _ (
      bit_at-logic s e k u r.logicop l
      ∙ ap (λ t. truth r.logicop (bit_at s k) (bit_at (t / 2 ^ r.src_shift) k)) (seen r.dest i i r))
    ∙ sym (
        bit_at-value (r.blend || r.fast_clear) s _ k _
          (bit_at-table_logic r.logicop s d k (omega arith)))

rb_store_at :
    (v i : ℕ) (r : Rb2)
    → rb_store v (rb_set_addr i r)
      ≡ put_in r.dest i
          (bit_or
            (bit_and (contents r.dest r i) (not32 (bit_and r.write_mask r.global_mask)))
            (bit_and v (bit_and r.write_mask r.global_mask)))
          (rb_set_addr i r)
unfolding rb_store
rb_store_at v i r =
    ap
      (λ t.
        put_in r.dest i
          (bit_or (bit_and t (not32 (bit_and r.write_mask r.global_mask)))
            (bit_and v (bit_and r.write_mask r.global_mask)))
          (rb_set_addr i r))
      (seen r.dest i i r)

pub stored_value :
    (c i : ℕ) (r : Rb2)
    → r.logicop < 16
    → r.write_mask < 2 ^ 24
    → rb_write c (rb_set_addr i r) ≡ put_in r.dest i (lane_word c i r) (rb_set_addr i r)
unfolding lane_word
stored_value c i r l h =
    rb_write-value c (rb_set_addr i r)
    ∙ rb_store_at (value c (rb_set_addr i r)) i r
    ∙ ap (λ t. put_in r.dest i t (rb_set_addr i r))
        (merged-agree (contents r.dest r i) (value c (rb_set_addr i r)) (lane_value c i r)
          (bit_and r.write_mask r.global_mask) (masked r h) (same_value c i r l))

lane_kept :
    (d b : Buffer) (i j : ℕ) (r : Rb2)
    → contents b (put_in d i (contents d r i) r) j ≡ contents b r j
lane_kept buf_rgbci buf_rgbci i j r = ground arith
lane_kept buf_rgbci buf_cidaux i j r = refl
lane_kept buf_cidaux buf_rgbci i j r = refl
lane_kept buf_cidaux buf_cidaux i j r = ground arith

pub write_lane-eq-rb_write :
    (pass : Bool) (c i : ℕ) (r : Rb2) (b : Buffer) (j : ℕ)
    → r.logicop < 16
    → r.write_mask < 2 ^ 24
    → contents b (write_lane pass c i r) j
      ≡ contents b (if pass then rb_write c (rb_set_addr i r) else r) j
write_lane-eq-rb_write true c i r b j l h =
    same_contents r.dest b i j i (lane_word c i r) r
    ∙ ap (λ t. contents b t j) (sym (stored_value c i r l h))
write_lane-eq-rb_write false c i r b j l h = lane_kept r.dest b i j r
