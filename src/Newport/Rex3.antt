-- ===== src/Newport/Rex3.antt =====
-- The registers of the raster engine, `sgi_newport::rex3_t` (sgi_newport.hh), as bit patterns of
-- their widths, and the writes of the coordinates (sgi_newport.cc). `x_start_end_i`, which nothing
-- writes, is left out.
use interp_mips.Prelude.{
  ℕ, ◌+◌, ◌-◌, ◌%◌, ◌^◌, Bool, if◌then◌else◌, ltb, bits, put_bits, u16, ◌<<<◌, ◌>>>◌,
}

pub record Rex3 : Type 0 where
  pub color_host : Bool
  pub rwpacked : Bool
  pub rwdouble : Bool
  pub blend_back : Bool
  pub draw_mode0 : ℕ
  pub draw_mode1 : ℕ
  pub plane_enable : ℕ
  pub plane_depth : ℕ
  pub hostdepth : ℕ
  pub sfactor : ℕ
  pub dfactor : ℕ
  pub host_shift : ℕ
  pub ls_mode : ℕ
  pub ls_pattern : ℕ
  pub ls_pattern_saved : ℕ
  pub z_pattern : ℕ
  pub color_back : ℕ
  pub color_vram : ℕ
  pub alpha_ref : ℕ
  pub setup : ℕ
  pub step_z : ℕ
  pub x_start : ℕ
  pub y_start : ℕ
  pub x_end : ℕ
  pub y_end : ℕ
  pub x_start_frac : ℕ
  pub y_start_frac : ℕ
  pub x_end_frac : ℕ
  pub y_end_frac : ℕ
  pub x_save : ℕ
  pub xy_move : ℕ
  pub x_move : ℕ
  pub y_move : ℕ
  pub bres_d : ℕ
  pub bres_s1 : ℕ
  pub bres_octant_inc1 : ℕ
  pub bres_round_inc2 : ℕ
  pub bres_e1 : ℕ
  pub bres_s2 : ℕ
  pub a_weight0 : ℕ
  pub a_weight1 : ℕ
  pub x_start_f : ℕ
  pub y_start_f : ℕ
  pub x_end_f : ℕ
  pub y_end_f : ℕ
  pub x_start_i : ℕ
  pub y_start_i : ℕ
  pub x_end_i : ℕ
  pub y_end_i : ℕ
  pub xy_start_i : ℕ
  pub xy_end_i : ℕ
  pub color_red : ℕ
  pub color_alpha : ℕ
  pub color_green : ℕ
  pub color_blue : ℕ
  pub curr_red : ℕ
  pub curr_alpha : ℕ
  pub curr_green : ℕ
  pub curr_blue : ℕ
  pub slope_red : ℕ
  pub slope_alpha : ℕ
  pub slope_green : ℕ
  pub slope_blue : ℕ
  pub write_mask : ℕ
  pub color_i : ℕ
  pub zero_overflow : ℕ
  pub host_dataport : ℕ
  pub dcb_mode : ℕ
  pub dcb_reg_select : ℕ
  pub dcb_slave_select : ℕ
  pub dcb_data_msw : ℕ
  pub dcb_data_lsw : ℕ
  pub dcb_mask : ℕ
  pub top_scanline : ℕ
  pub xy_window : ℕ
  pub x_window : ℕ
  pub y_window : ℕ
  pub clip_mode : ℕ
  pub config : ℕ
  pub status : ℕ
  pub smask_x : ℕ → ℕ
  pub smask_y : ℕ → ℕ

-- `(xy & 0x0000ffff) | (x << 16)`, and `(xy & 0xffff0000) | y`.
abbrev pub put_high : ℕ → ℕ → ℕ
put_high xy x = x <<< 16 + xy % 2 ^ 16

abbrev pub put_low : ℕ → ℕ → ℕ
put_low xy y = bits xy 16 16 <<< 16 + y

unfoldable pub write_x_start : ℕ → Rex3 → Rex3
write_x_start v r = record r {
  x_start = bits v 7 20 <<< 7;
  x_start_frac = bits v 7 4;
  x_start_i = u16 (v >>> 11);
  x_start_f = bits v 7 16 <<< 7;
  xy_start_i = put_high r.xy_start_i (u16 (v >>> 11));
}

unfoldable pub write_y_start : ℕ → Rex3 → Rex3
write_y_start v r = record r {
  y_start = bits v 7 20 <<< 7;
  y_start_frac = bits v 7 4;
  y_start_i = u16 (v >>> 11);
  y_start_f = bits v 7 16 <<< 7;
  xy_start_i = put_low r.xy_start_i (u16 (v >>> 11));
}

unfoldable pub write_x_end : ℕ → Rex3 → Rex3
write_x_end v r = record r {
  x_end = bits v 7 20 <<< 7;
  x_end_frac = bits v 7 4;
  x_end_i = u16 (v >>> 11);
  x_end_f = bits v 7 16 <<< 7;
  xy_end_i = put_high r.xy_end_i (u16 (v >>> 11));
}

unfoldable pub write_y_end : ℕ → Rex3 → Rex3
write_y_end v r = record r {
  y_end = bits v 7 20 <<< 7;
  y_end_frac = bits v 7 4;
  y_end_i = u16 (v >>> 11);
  y_end_f = bits v 7 16 <<< 7;
  xy_end_i = put_low r.xy_end_i (u16 (v >>> 11));
}

-- A coordinate of 20 bits, `sext20(v >> 7)`, plus 2 ^ 19: the order and the distances are the same.
abbrev pub biased : ℕ → ℕ
biased v = (v >>> 7 + 2 ^ 19) % 2 ^ 20

abbrev pub distance : ℕ → ℕ → ℕ
distance a b = if ltb a b then b - a else a - b

-- The octant of the line from the start to the end.
unfoldable pub octant : Rex3 → ℕ
octant r =
    let x1 = biased r.x_start in
    let y1 = biased r.y_start in
    let x2 = biased r.x_end in
    let y2 = biased r.y_end in
    (if ltb y2 y1 then 1 else 0)
    + (if ltb x2 x1 then 2 else 0)
    + (if ltb (distance y1 y2) (distance x1 x2) then 4 else 0)

unfoldable pub do_setup : Rex3 → Rex3
do_setup r = record r { bres_octant_inc1 = put_bits r.bres_octant_inc1 24 3 (octant r) }
