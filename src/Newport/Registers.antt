-- ===== src/Newport/Registers.antt =====
-- The writes of the registers of the raster engine: the switch of `sgi_newport::rex3_w`
-- (sgi_newport.cc). `offs` is the offset of the line without the bit that starts a command; h and l
-- are the halves of the value, which hi and lo say are written. The command that follows is left out.
use interp_mips.Prelude.{
  ℕ, ◌+◌, ◌-◌, ◌^◌, bit_and, bit_or, Bool, if◌then◌else◌, ◌==◌, bits, is_set, set_bit, u16, u32,
  not64, ◌<<<◌, ◌>>>◌, update,
}
use interp_mips.Newport.Rex3.{
  Rex3, write_x_start, write_y_start, write_x_end, write_y_end, do_setup,
}
use interp_mips.Newport.Colour.{s_host_shifts}
use interp_mips.Newport.Clip.{coordinate}

-- `v & 0x007fff80`, and `((int32_t)(int16_t)v) << 11`.
abbrev pub fraction : ℕ → ℕ
fraction v = bits v 7 16 <<< 7

abbrev pub whole : ℕ → ℕ
whole v = coordinate v

abbrev pub saved : Rex3 → Rex3
saved r = record r { x_save = r.x_start_i }

abbrev pub start_x : ℕ → Rex3 → Rex3
start_x v r = saved (write_x_start v r)

-- Both coordinates of the start, and of the end, as integers.
unfoldable pub start_xy : ℕ → Rex3 → Rex3
start_xy v r = saved (write_y_start (whole (u16 v)) (write_x_start (whole (bits v 16 16)) r))

unfoldable pub end_xy : ℕ → Rex3 → Rex3
end_xy v r = write_y_end (whole (u16 v)) (write_x_end (whole (bits v 16 16)) r)

-- The index of a colour that is written without the RGB mode.
abbrev pub index_of : ℕ → Rex3 → ℕ
index_of h r =
    if is_set r.draw_mode1 15
    then r.color_i
    else if r.plane_depth == 0
    then bits h 11 4
    else if r.plane_depth == 1
    then bits h 11 8
    else if r.plane_depth == 2
    then bits h 9 12
    else r.color_i

-- A slope from its sign and its magnitude of w bits.
abbrev pub magnitude : ℕ → ℕ → ℕ
magnitude w d = if is_set d 31 then set_bit (2 ^ w - bits d 0 w) w else bits d 0 w

abbrev pub set_color : ℕ → Rex3 → Rex3
set_color l r =
    let q = record r { color_i = l } in
    let red = bits l 0 8 <<< 11 in
    let green = bits l 8 8 <<< 11 in
    let blue = bits l 16 8 <<< 11 in
    if is_set r.draw_mode1 15
    then record q {
      color_red = red;
      color_green = green;
      color_blue = blue;
      curr_red = red;
      curr_green = green;
      curr_blue = blue;
    }
    else q

unfoldable pub draw_modes : ℕ → ℕ → Bool → Bool → Rex3 → Rex3
draw_modes h l hi lo r =
    let q =
      if hi
      then record r {
        draw_mode1 = h;
        plane_enable = bits h 0 3;
        plane_depth = bits h 3 2;
        rwpacked = is_set h 7;
        hostdepth = bits h 8 2;
        rwdouble = is_set h 10;
        sfactor = bits h 19 3;
        dfactor = bits h 22 3;
        blend_back = is_set h 25;
        host_shift = 64 - s_host_shifts (bits h 8 2);
      }
      else r in
    if lo then record q { draw_mode0 = l; color_host = is_set l 6 } else q

-- The modes, the patterns, the masks and the window.
unfoldable pub write_mode : ℕ → ℕ → ℕ → Bool → Bool → Rex3 → Rex3
write_mode offs h l hi lo r =
    if offs == 0x0008
    then record r {
      ls_mode = if hi then bits h 0 28 else r.ls_mode;
      ls_pattern = if lo then l else r.ls_pattern;
    }
    else if offs == 0x0010
    then record r {
      ls_pattern_saved = if hi then h else r.ls_pattern_saved;
      z_pattern = if lo then l else r.z_pattern;
    }
    else if offs == 0x0018
    then record r {
      color_back = if hi then h else r.color_back;
      color_vram = if lo then l else r.color_vram;
    }
    else if offs == 0x0020
    then record r { alpha_ref = if hi then bits h 0 8 else r.alpha_ref }
    else if offs == 0x0028
    then record r {
      smask_x = if hi then update r.smask_x 0 h else r.smask_x;
      smask_y = if lo then update r.smask_y 0 l else r.smask_y;
    }
    else if offs == 0x0030
    then (let q = if hi then do_setup (record r { setup = h }) else r in
        if lo then record q { step_z = 1 } else q)
    else if offs == 0x0038
    then (let q = if hi then record r { ls_pattern = r.ls_pattern_saved } else r in
        if lo then record q { ls_pattern_saved = q.ls_pattern } else q)
    else if offs == 0x1300
    then record r {
      smask_x = if hi then update r.smask_x 1 h else r.smask_x;
      smask_y = if lo then update r.smask_y 1 l else r.smask_y;
    }
    else if offs == 0x1308
    then record r {
      smask_x = if hi then update r.smask_x 2 h else r.smask_x;
      smask_y = if lo then update r.smask_y 2 l else r.smask_y;
    }
    else if offs == 0x1310
    then record r {
      smask_x = if hi then update r.smask_x 3 h else r.smask_x;
      smask_y = if lo then update r.smask_y 3 l else r.smask_y;
    }
    else if offs == 0x1318
    then record r {
      smask_x = if hi then update r.smask_x 4 h else r.smask_x;
      smask_y = if lo then update r.smask_y 4 l else r.smask_y;
    }
    else if offs == 0x1320
    then record r {
      top_scanline = if hi then bits h 0 10 else r.top_scanline;
      xy_window = if lo then l else r.xy_window;
      x_window = if lo then bits l 16 16 else r.x_window;
      y_window = if lo then bits l 0 16 else r.y_window;
    }
    else if offs == 0x1328
    then record r { clip_mode = if hi then bits h 0 13 else r.clip_mode }
    else if offs == 0x1330
    then record r { config = if hi then bits h 0 21 else r.config }
    else r

-- The coordinates and the parameters of a line.
unfoldable pub write_place : ℕ → ℕ → ℕ → Bool → Bool → Rex3 → Rex3
write_place offs h l hi lo r =
    if offs == 0x0100
    then (let q = if hi then start_x h r else r in if lo then write_y_start l q else q)
    else if offs == 0x0108
    then (let q = if hi then write_x_end h r else r in if lo then write_y_end l q else q)
    else if offs == 0x0110
    then record r {
      x_save = if hi then u16 h else r.x_save;
      xy_move = if lo then l else r.xy_move;
      x_move = if lo then bits l 16 16 else r.x_move;
      y_move = if lo then bits l 0 16 else r.y_move;
    }
    else if offs == 0x0118
    then record r {
      bres_d = if hi then bits h 0 27 else r.bres_d;
      bres_s1 = if lo then bits l 0 17 else r.bres_s1;
    }
    else if offs == 0x0120
    then record r {
      bres_octant_inc1 = if hi then bits h 24 3 <<< 24 + bits h 0 20 else r.bres_octant_inc1;
      bres_round_inc2 = if lo then bits l 24 8 <<< 24 + bits l 0 21 else r.bres_round_inc2;
    }
    else if offs == 0x0128
    then record r {
      bres_e1 = if hi then bits h 0 16 else r.bres_e1;
      bres_s2 = if lo then bits l 0 26 else r.bres_s2;
    }
    else if offs == 0x0130
    then record r {
      a_weight0 = if hi then h else r.a_weight0;
      a_weight1 = if lo then l else r.a_weight1;
    }
    else if offs == 0x0138
    then (let q = if hi then start_x (fraction h) r else r in
        if lo then write_y_start (fraction l) q else q)
    else if offs == 0x0140
    then (let q = if hi then write_x_end (fraction h) r else r in
        if lo then write_y_end (fraction l) q else q)
    else if offs == 0x0148
    then (let q = if hi then start_x (whole (u16 h)) r else r in
        if lo then write_x_end (fraction l) q else q)
    else if offs == 0x0150
    then (let q = if hi then start_xy h r else r in if lo then end_xy l q else q)
    else if offs == 0x0158
    then (if hi
        then saved (write_x_end (whole (u16 h)) (write_x_start (whole (bits h 16 16)) r))
        else r)
    else r

-- The colours, their slopes and the host data port.
unfoldable pub write_colour : ℕ → ℕ → ℕ → Bool → Bool → Rex3 → Rex3
write_colour offs value mask hi lo r =
    let h = value >>> 32 in
    let l = u32 value in
    if offs == 0x0200
    then record r {
      color_red = if hi then bits h 0 24 else r.color_red;
      curr_red = if hi then bits h 0 24 else r.curr_red;
      color_i = if hi then index_of h r else r.color_i;
      color_alpha = if lo then bits l 0 20 else r.color_alpha;
      curr_alpha = if lo then bits l 0 20 else r.curr_alpha;
    }
    else if offs == 0x0208
    then record r {
      color_green = if hi then bits h 0 20 else r.color_green;
      curr_green = if hi then bits h 0 20 else r.curr_green;
      color_blue = if lo then bits l 0 20 else r.color_blue;
      curr_blue = if lo then bits l 0 20 else r.curr_blue;
    }
    else if offs == 0x0210
    then record r {
      slope_red = if hi then magnitude 23 h else r.slope_red;
      slope_alpha = if lo then magnitude 19 l else r.slope_alpha;
    }
    else if offs == 0x0218
    then record r {
      slope_green = if hi then magnitude 19 h else r.slope_green;
      slope_blue = if lo then magnitude 19 l else r.slope_blue;
    }
    else if offs == 0x0220
    then (let q = if hi then record r { write_mask = bits h 0 24 } else r in
        if lo then set_color l q else q)
    else if offs == 0x0228
    then record r {
      zero_overflow = if hi then h else r.zero_overflow;
      slope_red = if lo then l else r.slope_red;
    }
    else if offs == 0x0230
    then record r {
      host_dataport = bit_or (bit_and r.host_dataport (not64 mask)) (bit_and value mask);
      host_shift = 64 - s_host_shifts r.hostdepth;
    }
    else r
