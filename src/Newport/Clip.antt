-- ===== src/Newport/Clip.antt =====
-- The clipping and the output of a pixel: `clip_pass`, `output_pixel` and `do_pixel_read`
-- (sgi_newport.cc). Coordinates are the bit patterns of an int16_t. The blending, in floating point,
-- is a parameter. The rows are not folded (NP_FBROWS, a profiling build).
use interp_mips.Prelude.{
  ℕ, zero, suc, ◌+◌, ◌-◌, ◌*◌, ◌%◌, ◌^◌, Bool, false, if◌then◌else◌, ◌==◌, ◌||◌, ◌&&◌, not, ltb,
  is_set, u16, u32, bits, ◌<<<◌,
}
use interp_mips.Newport.Bit.{slt16}
use interp_mips.Newport.Rex3.{Rex3, write_x_start, write_y_start}
use interp_mips.Newport.Rb2.{Rb2, rb_set_addr, rb_read, rb_write}
use interp_mips.Newport.Depth.{convert_depth}

abbrev pub fb_w : ℕ
fb_w = 1344

abbrev pub fb_h : ℕ
fb_h = 1088

abbrev pub disp_h : ℕ
disp_h = 1024

-- `(int16_t)(x + window - 0x1000)`.
abbrev pub windowed : ℕ → ℕ → ℕ
windowed x window = u16 (x + window + 2 ^ 16 - 0x1000)

-- Whether v lies between the halves of a screen mask, both less an offset.
abbrev pub in_mask : ℕ → ℕ → ℕ → Bool
in_mask offset mask v =
    let lo = u16 (bits mask 16 16 + 2 ^ 16 - offset) in
    let hi = u16 (bits mask 0 16 + 2 ^ 16 - offset) in not (slt16 v lo) && not (slt16 hi v)

-- Whether one of the masks from `bit` to 4 that the mode enables holds the window's (x, y).
unfoldable pub in_any_mask : ℕ → ℕ → ℕ → ℕ → Rex3 → Bool
in_any_mask zero bit x y r = false
in_any_mask (suc left) bit x y r =
    (is_set r.clip_mode bit
      && (in_mask 0x1000 (r.smask_x bit) x && in_mask 0x1000 (r.smask_y bit) y))
    || in_any_mask left (bit + 1) x y r

-- `!(x < 0 || y < 0 || x >= (int)FB_W || y >= (int)DISP_H)`.
abbrev pub on_screen : ℕ → ℕ → ℕ → Bool
on_screen height x y =
    not (((slt16 x 0 || slt16 y 0) || not (slt16 x fb_w)) || not (slt16 y height))

unfoldable pub clip_pass : ℕ → ℕ → Rex3 → Bool
clip_pass x y r =
    let mask0 = in_mask 0 (r.smask_x 0) x && in_mask 0 (r.smask_y 0) y in
    let wx = windowed x r.x_window in
    let wy = windowed y r.y_window in
    if is_set r.clip_mode 0 && not mask0
    then false
    else if not (bits r.clip_mode 1 4 == 0) && not (in_any_mask 4 1 wx wy r)
    then false
    else on_screen disp_h wx wy

-- `(uint32_t)v` of an int16_t.
abbrev pub extended : ℕ → ℕ
extended v = if ltb v (2 ^ 15) then v else v + (2 ^ 32 - 2 ^ 16)

-- `(uint32_t)(y * FB_W + x)`.
abbrev pub address : ℕ → ℕ → ℕ
address x y = u32 (extended y * fb_w + extended x)

-- The raster engine with its buffers, and the count of pixels since the last command.
pub record Engine : Type 0 where
  pub rex : Rex3
  pub rb : Rb2
  pub go_pixels : ℕ

module _ (blend_pixel : ℕ → Rex3 → Rb2 → Rb2) where
  unfoldable pub output_pixel : ℕ → ℕ → ℕ → Engine → Engine
  output_pixel x y color e =
      let r = e.rex in
      let at = rb_set_addr (address (windowed x r.x_window) (windowed y r.y_window)) e.rb in
      let drawn = if is_set r.draw_mode1 18 then blend_pixel color r at else rb_write color at in
      let counted = record e { go_pixels = (e.go_pixels + 1) % 2 ^ 64 } in
      if clip_pass x y r then record counted { rb = drawn } else counted

-- `(uint32_t)(v << 11)` of an int16_t.
abbrev pub coordinate : ℕ → ℕ
coordinate v = u32 (extended v <<< 11)

-- The next pixel of a read: to the right, and at the end of a row back and to the next one.
abbrev pub next_pixel : Rex3 → Rex3
next_pixel r =
    let x = u16 (r.x_start_i + 1) in
    let step = if slt16 r.y_end_i r.y_start_i then 2 ^ 16 - 1 else 1 in
    if slt16 r.x_end_i x
    then record r { x_start_i = r.x_save; y_start_i = u16 (r.y_start_i + step) }
    else record r { x_start_i = x }

unfoldable pub do_pixel_read : Engine → ℕ × Engine
do_pixel_read e =
    let r = e.rex in
    let x = windowed r.x_start_i r.x_window in
    let y = windowed r.y_start_i r.y_window in
    let at = if on_screen fb_h x y then rb_set_addr (address x y) e.rb else e.rb in
    let v = if on_screen fb_h x y then rb_read at else 0 in
    let colours = (r.plane_enable == 1) || (r.plane_enable == 2) in
    let q = next_pixel r in
    (
      if colours then convert_depth v r.plane_depth r.hostdepth else v,
      record {
        rex = write_y_start (coordinate q.y_start_i) (write_x_start (coordinate q.x_start_i) q);
        rb = at;
        go_pixels = (e.go_pixels + 1) % 2 ^ 64;
      },
    )
