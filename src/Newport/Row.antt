-- ===== src/Newport/Row.antt =====
-- A row of shaded pixels in the dithered RGB mode: the loop by pixels of `span_or_block` and the
-- loop by lanes of `span_fast` (sgi_newport.cc), for a row of n pixels from left to right with the
-- whole pattern drawn and no colours from the host. The kernel runs where no coordinate leaves an
-- int16_t.
use interp_mips.Prelude.{
  ℕ, zero, suc, ◌+◌, ◌%◌, ◌^◌, ◌<◌, ◌≡◌, refl, sym, ap, ◌∙◌, arith, Bool, true, false,
  if◌then◌else◌, ◌&&◌, is_set, u16, update, ltb, not, Bool-cases, inl, inr,
}
use interp_mips.Newport.Rex3.{Rex3}
use interp_mips.Newport.Rb2.{Rb2, Buffer, buf_rgbci, buf_cidaux, contents, put_in, rb_set_addr}
use interp_mips.Newport.Colour.{rgb_color, rgb_from, s_bayer, iterate_shade}
use interp_mips.Newport.Shade.{
  shaded, shade_times-eq-shaded, lane_colour, shade_times, is_iterating, rgb_color-eq-lane_colour,
}
use interp_mips.Newport.Clip.{windowed, clip_pass, address, Engine, output_pixel}
use interp_mips.Newport.Lane.{lane_value, lane_word, write_lane, stored_value}
use interp_mips.Newport.Span.{row_ok, row_masks, lane_pass, lane_pass-eq-clip_pass}

-- The lanes from k on of a row that starts at x, with the registers r of the start.
unfoldable pub span_row : ℕ → ℕ → ℕ → ℕ → Rex3 → Rb2 → Rb2
span_row zero k x y r rb = rb
span_row (suc n) k x y r rb =
    let at = u16 (x + k) in
    span_row n (k + 1) x y r (
      write_lane (lane_pass at y r) (lane_colour k x y r)
        (address (windowed at r.x_window) (windowed y r.y_window)) rb)

-- All of a framebuffer but its pointer, which every access sets first.
abbrev pub unpointed : Rb2 → Rb2
unpointed r = record r { ptr_buffer = buf_rgbci; ptr_index = 0 }

unpointed-put_in :
    (b : Buffer) (i a v : ℕ) (r : Rb2)
    → unpointed (put_in b i v (rb_set_addr a r)) ≡ put_in b i v (unpointed r)
unpointed-put_in buf_rgbci i a v r = refl
unpointed-put_in buf_cidaux i a v r = refl

update-same : (f : ℕ → ℕ) (i j : ℕ) → update f i (f i) j ≡ f j
update-same f i j = ground arith

module _ (blend_pixel : ℕ → Rex3 → Rb2 → Rb2) where
  -- The pixels of a row from x on, each shaded first.
  unfoldable pub pixel_row : ℕ → ℕ → ℕ → Engine → Engine
  pixel_row zero x y e = e
  pixel_row (suc n) x y e =
      let q = record e { rex = iterate_shade e.rex } in
      pixel_row n (u16 (x + 1)) y (output_pixel blend_pixel x y (rgb_color x y q.rex) q)

unpointed-write :
    (b : Buffer) (i v : ℕ) (r : Rb2) → unpointed (put_in b i v r) ≡ put_in b i v (unpointed r)
unpointed-write buf_rgbci i v r = refl
unpointed-write buf_cidaux i v r = refl

contents-unpointed : (b : Buffer) (i : ℕ) (r : Rb2) → contents b (unpointed r) i ≡ contents b r i
contents-unpointed buf_rgbci i r = refl
contents-unpointed buf_cidaux i r = refl

lane_word-unpointed : (c i : ℕ) (r : Rb2) → lane_word c i (unpointed r) ≡ lane_word c i r
unfolding lane_word lane_value
lane_word-unpointed c i r = simp (contents-unpointed r.dest i r) refl

unpointed-write_lane :
    (p : Bool) (c i : ℕ) (r : Rb2) → unpointed (write_lane p c i r) ≡ write_lane p c i (unpointed r)
unpointed-write_lane true c i r =
    unpointed-write r.dest i (lane_word c i r) r
    ∙ ap (λ t. put_in r.dest i t (unpointed r)) (sym (lane_word-unpointed c i r))
unpointed-write_lane false c i r =
    unpointed-write r.dest i (contents r.dest r i) r
    ∙ ap (λ t. put_in r.dest i t (unpointed r)) (sym (contents-unpointed r.dest i r))

kept : (b : Buffer) (i : ℕ) (r : Rb2) → put_in b i (contents b r i) r ≡ r
kept buf_rgbci i r = λ t. record r { rgbci = λ j. update-same r.rgbci i j t }
kept buf_cidaux i r = λ t. record r { cidaux = λ j. update-same r.cidaux i j t }

-- The logic op and the write mask of a framebuffer are in their bounds.
abbrev pub is_bounded : Rb2 → Bool
is_bounded r = ltb r.logicop 16 && ltb r.write_mask (2 ^ 24)

write_lane-is_bounded :
    (p : Bool) (c i : ℕ) (r : Rb2) → is_bounded (write_lane p c i r) ≡ is_bounded r
write_lane-is_bounded p c i r = at r.dest (if p then lane_word c i r else contents r.dest r i)
  where
    at : (b : Buffer) (v : ℕ) → is_bounded (put_in b i v r) ≡ is_bounded r
    at buf_rgbci v = refl
    at buf_cidaux v = refl

same_bayer : (x y : ℕ) → s_bayer (u16 x) y ≡ s_bayer x y
unfolding s_bayer
same_bayer x y = let e : u16 x % 4 ≡ x % 4 = omega arith in simp e refl

rgb_color-u16 : (x y : ℕ) (r : Rex3) → rgb_color (u16 x) y r ≡ rgb_color x y r
unfolding rgb_from
rgb_color-u16 x y r = simp (same_bayer x y) refl

shade_times-suc : (n : ℕ) (r : Rex3) → shade_times (suc n) r ≡ iterate_shade (shade_times n r)
shade_times-suc zero r = refl
shade_times-suc (suc n) r = shade_times-suc n (iterate_shade r)

lane_pass-shaded : (n x y : ℕ) (r : Rex3) → lane_pass x y (shaded n r) ≡ lane_pass x y r
unfolding lane_pass row_ok row_masks
lane_pass-shaded n x y r = refl

module _ (blend_pixel : ℕ → Rex3 → Rb2 → Rb2) where
  pixel-eq-lane :
      (x y color : ℕ) (e : Engine)
      → is_set e.rex.draw_mode1 18 ≡ false
      → is_bounded e.rb ≡ true
      → unpointed (output_pixel blend_pixel x y color e).rb
        ≡ write_lane
            (lane_pass x y e.rex)
            color
            (address (windowed x e.rex.x_window) (windowed y e.rex.y_window))
            (unpointed e.rb)
  unfolding output_pixel
  pixel-eq-lane x y color e m h =
      let at = address (windowed x e.rex.x_window) (windowed y e.rex.y_window) in
      elim (Bool-cases (clip_pass x y e.rex)) [
        | inl c ↦
            simp (c, m, lane_pass-eq-clip_pass x y e.rex)
              (ap unpointed (stored_value color at e.rb (ground arith) (ground arith))
                ∙ unpointed-put_in e.rb.dest at at (lane_word color at e.rb) e.rb
                ∙ ap (λ t. put_in e.rb.dest at t (unpointed e.rb))
                    (sym (lane_word-unpointed color at e.rb)))
        | inr c ↦
            simp (c, lane_pass-eq-clip_pass x y e.rex) (sym (kept e.rb.dest at (unpointed e.rb)))
      ]

  output_pixel-rex :
      (x y color : ℕ) (e : Engine) → (output_pixel blend_pixel x y color e).rex ≡ e.rex
  unfolding output_pixel
  output_pixel-rex x y color e = elim (Bool-cases (clip_pass x y e.rex)) [
    | inl c ↦ simp c refl
    | inr c ↦ simp c refl
  ]

  -- What a lane of a row that is shaded from r leaves of the framebuffer rb.
  lane_of : ℕ → ℕ → Rex3 → Rb2 → Rb2
  lane_of x y r rb =
      write_lane (lane_pass x y r) (rgb_color x y r)
        (address (windowed x r.x_window) (windowed y r.y_window)) rb

  -- The registers are in the dithered RGB mode, without blending or the clamp of the iterators.
  abbrev pub is_dithered : Rex3 → Bool
  is_dithered r =
      (((not (is_set r.draw_mode1 18) && not (is_set r.draw_mode0 21)) && is_set r.draw_mode1 15)
        && is_set r.draw_mode1 16)
      && is_iterating r

  shaded_colour :
      (k x y : ℕ) (r : Rex3)
      → is_dithered r ≡ true
      → rgb_color (u16 (x + k)) y (shaded (suc k) r) ≡ lane_colour k x y r
  shaded_colour k x y r h =
      let e : k + 1 ≡ suc k = omega arith in
      rgb_color-u16 (x + k) y (shaded (suc k) r)
      ∙ ap (λ t. rgb_color (x + k) y t)
          (sym (shade_times-eq-shaded (suc k) r (ground arith) (ground arith)))
      ∙ ap (λ t. rgb_color (x + k) y (shade_times t r)) (sym e)
      ∙ rgb_color-eq-lane_colour k x y r (ground arith) (ground arith) (ground arith) (ground arith)

  row_from :
      (n k x y : ℕ) (r : Rex3) (e : Engine) (rb : Rb2)
      → is_dithered r ≡ true
      → is_bounded rb ≡ true
      → e.rex ≡ shade_times k r
      → unpointed e.rb ≡ unpointed rb
      → unpointed (pixel_row blend_pixel n (u16 (x + k)) y e).rb ≡ unpointed (span_row n k x y r rb)
  unfolding pixel_row span_row lane_of
  row_from zero k x y r e rb h l p q = q
  row_from (suc n) k x y r e rb h l p q =
      let at = u16 (x + k) in
      let s : Engine = record e { rex = iterate_shade e.rex } in
      let color = rgb_color at y s.rex in
      let place = address (windowed at r.x_window) (windowed y r.y_window) in
      let next : u16 (u16 (x + k) + 1) ≡ u16 (x + (k + 1)) = omega arith in
      let one : suc k ≡ k + 1 = omega arith in
      let again : s.rex ≡ shade_times (suc k) r = ap iterate_shade p ∙ sym (shade_times-suc k r) in
      let now : s.rex ≡ shaded (suc k) r =
        again ∙ shade_times-eq-shaded (suc k) r (ground arith) (ground arith) in
      let drawn : unpointed (output_pixel blend_pixel at y color s).rb
          ≡ unpointed (write_lane (lane_pass at y r) (lane_colour k x y r) place rb) =
        pixel-eq-lane at y color s (ap (λ t. is_set t.draw_mode1 18) now ∙ ground arith)
          (ap is_bounded q ∙ l)
        ∙ ap (λ t. lane_of at y t (unpointed e.rb)) now
        ∙ ap (λ t. write_lane t (rgb_color at y (shaded (suc k) r)) place (unpointed e.rb))
            (lane_pass-shaded (suc k) at y r)
        ∙ ap (λ t. write_lane (lane_pass at y r) t place (unpointed e.rb)) (shaded_colour k x y r h)
        ∙ ap (λ t. write_lane (lane_pass at y r) (lane_colour k x y r) place t) q
        ∙ sym (unpointed-write_lane (lane_pass at y r) (lane_colour k x y r) place rb) in
      ap (λ t. unpointed (pixel_row blend_pixel n t y (output_pixel blend_pixel at y color s)).rb)
        next
      ∙ row_from n (k + 1) x y r (output_pixel blend_pixel at y color s) _ h
          (write_lane-is_bounded (lane_pass at y r) (lane_colour k x y r) place rb ∙ l)
          (output_pixel-rex at y color s ∙ again ∙ ap (λ t. shade_times t r) one) drawn

  pixel_row-rex :
      (n x y : ℕ) (e : Engine) → (pixel_row blend_pixel n x y e).rex ≡ shade_times n e.rex
  unfolding pixel_row
  pixel_row-rex zero x y e = refl
  pixel_row-rex (suc n) x y e =
      let s : Engine = record e { rex = iterate_shade e.rex } in
      pixel_row-rex n (u16 (x + 1)) y (output_pixel blend_pixel x y (rgb_color x y s.rex) s)
      ∙ ap (shade_times n) (output_pixel-rex x y (rgb_color x y s.rex) s)

  -- A row of n shaded pixels in the dithered RGB mode, without blending or the clamp of the
  -- iterators, with iterators of 32 bits, a write mask below 2 ^ 24 and a logic op below 16:
  -- the loop by pixels, which shades, clips and writes one after the other from an x of 16
  -- bits, leaves the framebuffer, but its pointer, that the loop by lanes of the span kernel
  -- leaves, which takes each colour, mask and logic op its own way, and the registers with
  -- the iterators that the kernel sets at the end.
  pub pixel_row-eq-span_row :
      (n x y : ℕ) (e : Engine)
      → x < 2 ^ 16
      → is_dithered e.rex ≡ true
      → is_bounded e.rb ≡ true
      → (unpointed (pixel_row blend_pixel n x y e).rb ≡ unpointed (span_row n 0 x y e.rex e.rb))
        × ((pixel_row blend_pixel n x y e).rex ≡ shaded n e.rex)
  pixel_row-eq-span_row n x y e u h l =
      let start : x ≡ u16 (x + 0) = omega arith in
      (
        ap (λ t. unpointed (pixel_row blend_pixel n t y e).rb) start
            ∙ row_from n 0 x y e.rex e e.rb h l refl refl,
        pixel_row-rex n x y e ∙ shade_times-eq-shaded n e.rex (ground arith) (ground arith),
      )
