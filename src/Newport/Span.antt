-- ===== src/Newport/Span.antt =====
-- The clipping of a row by the span kernel, `sgi_newport::span_fast` (sgi_newport.cc): the masks that
-- hold the row are chosen once, and each lane is tested against those alone. The kernel runs where no
-- coordinate of the row leaves an int16_t, so that x and its window's are their patterns.
use interp_mips.Prelude.{
  ℕ, zero, suc, ◌+◌, ◌^◌, ◌<◌, ◌≡◌, refl, ap, ◌∙◌, arith, Bool, true, false, if◌then◌else◌, ◌==◌,
  ◌||◌, ◌&&◌, not, bits, is_set, List, [], ◌∷◌, Bool-cases, inl, inr,
}
use interp_mips.Newport.Bit.{slt16}
use interp_mips.Newport.Rex3.{Rex3}
use interp_mips.Newport.Rb2.{Rb2, Buffer, contents, rb_set_addr, rb_write}
use interp_mips.Newport.Clip.{
  fb_w, disp_h, windowed, in_mask, in_any_mask, on_screen, clip_pass, address, Engine, output_pixel,
}
use interp_mips.Newport.Lane.{write_lane, write_lane-eq-rb_write}

-- The masks from `bit` on that the mode enables and whose y range holds the row: `x_lo` and `x_hi`.
unfoldable pub row_masks : ℕ → ℕ → ℕ → Rex3 → List ℕ
row_masks zero bit y r = []
row_masks (suc left) bit y r =
    let rest = row_masks left (bit + 1) y r in
    if is_set r.clip_mode bit && in_mask 0x1000 (r.smask_y bit) y
    then r.smask_x bit ∷ rest
    else rest

-- Whether a lane is in one of them.
unfoldable pub hits : ℕ → List ℕ → Bool
hits x [] = false
hits x (m ∷ ms) = in_mask 0x1000 m x || hits x ms

-- Whether the row is drawn at all.
unfoldable pub row_ok : ℕ → Rex3 → Bool
row_ok y r =
    let yw = windowed y r.y_window in
    let inside = not (slt16 yw 0) && slt16 yw disp_h in
    if is_set r.clip_mode 0 then inside && in_mask 0 (r.smask_y 0) y else inside

unfoldable pub lane_pass : ℕ → ℕ → Rex3 → Bool
lane_pass x y r =
    let xw = windowed x r.x_window in
    let first = if is_set r.clip_mode 0 then in_mask 0 (r.smask_x 0) x else true in
    let ok = (first && not (slt16 xw 0)) && slt16 xw fb_w in
    let hit = hits xw (row_masks 4 1 (windowed y r.y_window) r) in
    row_ok y r && (if not (bits r.clip_mode 1 4 == 0) then ok && hit else ok)

hits-row_masks :
    (left bit x y : ℕ) (r : Rex3) → hits x (row_masks left bit y r) ≡ in_any_mask left bit x y r
unfolding hits row_masks in_any_mask
hits-row_masks zero bit x y r = refl
hits-row_masks (suc left) bit x y r =
    chosen (is_set r.clip_mode bit) (in_mask 0x1000 (r.smask_y bit) y) (r.smask_x bit) x
      (row_masks left (bit + 1) y r)
    ∙ ap
        (λ t.
          (is_set r.clip_mode bit
            && (in_mask 0x1000 (r.smask_x bit) x && in_mask 0x1000 (r.smask_y bit) y))
          || t)
        (hits-row_masks left (bit + 1) x y r)
  where
    chosen :
        (a b : Bool) (m x : ℕ) (ms : List ℕ)
        → hits x (if a && b then m ∷ ms else ms) ≡ ((a && (in_mask 0x1000 m x && b)) || hits x ms)
    chosen true true m x ms = ground arith
    chosen true false m x ms = ground arith
    chosen false b m x ms = refl

same_tests :
    (m a b c d e f g n h : Bool)
    → ((if m then (not e && f) && b else not e && f)
        && (if not n
            then (((if m then a else true) && not c) && d) && h
            else ((if m then a else true) && not c) && d))
      ≡ (if m && not (a && b)
          then false
          else if not n && not h
          then false
          else not (((c || e) || not d) || not f))
same_tests m a b c d e f g n h = ground arith

pub lane_pass-eq-clip_pass : (x y : ℕ) (r : Rex3) → lane_pass x y r ≡ clip_pass x y r
unfolding lane_pass row_ok clip_pass
lane_pass-eq-clip_pass x y r =
    let xw = windowed x r.x_window in
    let yw = windowed y r.y_window in
    let a = in_mask 0 (r.smask_x 0) x in
    let b = in_mask 0 (r.smask_y 0) y in
    same_tests (is_set r.clip_mode 0) a b (slt16 xw 0) (slt16 xw fb_w) (slt16 yw 0)
      (slt16 yw disp_h) true (bits r.clip_mode 1 4 == 0) (hits xw (row_masks 4 1 yw r))
    ∙ ap
        (λ t.
          if is_set r.clip_mode 0 && not (a && b)
          then false
          else if not (bits r.clip_mode 1 4 == 0) && not t
          then false
          else on_screen disp_h xw yw)
        (hits-row_masks 4 1 xw yw r)

-- A lane: its word, drawn where it is written and passes.
unfoldable pub span_lane : ℕ → ℕ → ℕ → Engine → Rb2
span_lane x y color e =
    let r = e.rex in
    write_lane (lane_pass x y r) color (address (windowed x r.x_window) (windowed y r.y_window))
      e.rb

module _ (blend_pixel : ℕ → Rex3 → Rb2 → Rb2) where
  -- A lane that the span kernel writes is the pixel of the path by pixels: without blending,
  -- with a write mask below 2 ^ 24 and a logic op below 16, the test of the lane against the
  -- masks of its row, and its merge by the truth table of the logic op, leave in every word
  -- of both buffers what the clipping and the write of the pixel at the same place leave.
  pub span_lane-eq-output_pixel :
      (x y color : ℕ) (e : Engine) (b : Buffer) (i : ℕ)
      → is_set e.rex.draw_mode1 18 ≡ false
      → e.rb.logicop < 16
      → e.rb.write_mask < 2 ^ 24
      → contents b (span_lane x y color e) i
        ≡ contents b (output_pixel blend_pixel x y color e).rb i
  unfolding span_lane output_pixel
  span_lane-eq-output_pixel x y color e b i m l h =
      let at = address (windowed x e.rex.x_window) (windowed y e.rex.y_window) in
      write_lane-eq-rb_write (lane_pass x y e.rex) color at e.rb b i l h
      ∙ ap (λ t. contents b (if t then rb_write color (rb_set_addr at e.rb) else e.rb) i)
          (lane_pass-eq-clip_pass x y e.rex)
      ∙ let s = Bool-cases (clip_pass x y e.rex) in
        elim s [ inl c ↦ simp (c, m) refl | inr c ↦ simp c refl ]
