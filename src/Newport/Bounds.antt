-- ===== src/Newport/Bounds.antt =====
-- Where a pixel may go.
use interp_mips.Prelude.{
  ℕ, ◌+◌, ◌*◌, ◌^◌, ◌<◌, ◌≡◌, ◌≢◌, inl, inr, refl, ◌∙◌, arith, Bool, true, false, if◌then◌else◌,
  ◌&&◌, is_set, not, Bool-cases, bits, ◌==◌,
}
use interp_mips.Newport.Rex3.{Rex3}
use interp_mips.Newport.Rb2.{Rb2, Buffer, contents, rb_set_addr}
use interp_mips.Newport.Clip.{
  fb_w, disp_h, windowed, in_mask, in_any_mask, on_screen, clip_pass, address, Engine, output_pixel,
}
use interp_mips.Newport.Logic.{rb_write-IsDrawn}
use interp_mips.Newport.Lane.{seen}

-- What holds of a pixel that is let through, by its coordinates x and y and those of the window.
pub record IsInside (x y : ℕ) (r : Rex3) : Type 0 where
  pub column : windowed x r.x_window < fb_w
  pub row : windowed y r.y_window < disp_h
  pub place :
      address (windowed x r.x_window) (windowed y r.y_window)
      ≡ windowed y r.y_window * fb_w + windowed x r.x_window
  pub first_mask :
      is_set r.clip_mode 0 ≡ true → (in_mask 0 (r.smask_x 0) x && in_mask 0 (r.smask_y 0) y) ≡ true
  pub other_masks :
      (bits r.clip_mode 1 4 == 0) ≡ false
      → in_any_mask 4 1 (windowed x r.x_window) (windowed y r.y_window) r ≡ true

on_screen-place :
    (x y : ℕ)
    → x < 2 ^ 16
    → y < 2 ^ 16
    → on_screen disp_h x y ≡ true
    → (x < fb_w) × (y < disp_h) × (address x y ≡ y * fb_w + x)
on_screen-place x y hx hy h = (ground arith, ground arith, ground arith)

three_tests :
    (a b c d e : Bool)
    → (if a && not b then false else if not c && not d then false else e) ≡ true
    → (e ≡ true) × (a ≡ true → b ≡ true) × (c ≡ false → d ≡ true)
three_tests a b c d e h = (ground arith, λ p. ground arith, λ p. ground arith)

windowed-lt : (x w : ℕ) → windowed x w < 2 ^ 16
windowed-lt x w = omega arith

pub clip_pass-IsInside : (x y : ℕ) (r : Rex3) → clip_pass x y r ≡ true → IsInside x y r
unfolding clip_pass
clip_pass-IsInside x y r h =
    let t = three_tests _ _ _ _ _ h in
    let p =
      on_screen-place (windowed x r.x_window) (windowed y r.y_window) (windowed-lt x r.x_window)
        (windowed-lt y r.y_window) (t.0) in
    record { column = p.0; row = p.1; place = p.2; first_mask = t.1; other_masks = t.2 }

-- What the output of a pixel does to the buffers.
pub record IsContained (x y : ℕ) (e after : Engine) : Type 0 where
  pub inside : clip_pass x y e.rex ≡ true → IsInside x y e.rex
  pub clipped : clip_pass x y e.rex ≡ false → after.rb ≡ e.rb
  pub others :
      (b : Buffer) (i : ℕ)
      → i ≢ address (windowed x e.rex.x_window) (windowed y e.rex.y_window)
      → contents b after.rb i ≡ contents b e.rb i

module _ (blend_pixel : ℕ → Rex3 → Rb2 → Rb2) where
  -- The output of a pixel without blending, with a logic op below 16, changes no word of the
  -- buffers but the one at its place, and that only if the clipping passes it; then the
  -- column is below 1344, the row below 1024, the place is row * 1344 + column, and the pixel
  -- lies in the first screen mask, where that is enabled, and in one of the others that are,
  -- where any is.
  pub output_pixel-IsContained :
      (x y color : ℕ) (e : Engine)
      → is_set e.rex.draw_mode1 18 ≡ false
      → e.rb.logicop < 16
      → IsContained x y e (output_pixel blend_pixel x y color e)
  unfolding output_pixel
  output_pixel-IsContained x y color e m l = elim (Bool-cases (clip_pass x y e.rex)) [
    | inl c ↦ record {
      inside = λ h. clip_pass-IsInside x y e.rex h;
      clipped = λ h. absurd cc;
      others = λ b i d.
          simp (c, m)
            ((rb_write-IsDrawn color
                  (rb_set_addr (address (windowed x e.rex.x_window) (windowed y e.rex.y_window))
                    e.rb)
                  l).others
                b i (inr d)
              ∙ seen b i _ e.rb);
    }
    | inr c ↦ record {
      inside = λ h. clip_pass-IsInside x y e.rex h;
      clipped = λ h. simp c refl;
      others = λ b i d. simp c refl;
    }
  ]
