-- ===== src/Examples/Picture.antt =====
-- Runs of the graphics board.
use interp_mips.Prelude.{ℕ, ◌+◌, ◌*◌, ◌^◌, ◌≡◌, refl, arith, true, false, List, [], ◌∷◌, update}
use interp_mips.Newport.Rex3.{Rex3}
use interp_mips.Newport.Rb2.{Rb2, buf_rgbci, contents, rb_write, rb_store, logic, planes_up, lanes}
use interp_mips.Newport.Logic.{IsDrawn, rb_write-IsDrawn}
use interp_mips.Newport.Shade.{shaded}
use interp_mips.Newport.Clip.{Engine, output_pixel, clip_pass, in_any_mask}
use interp_mips.Newport.Bounds.{IsContained, output_pixel-IsContained}
use interp_mips.Newport.Row.{pixel_row, span_row, unpointed, pixel_row-eq-span_row}
use interp_mips.Newport.Span.{span_lane, span_lane-eq-output_pixel}
use interp_mips.Newport.Vc2.{Vc2}
use interp_mips.Newport.Dcb.{Board, Xmap9, Cmap, Ramdac}
use interp_mips.Newport.Readback.{put_words, get_words, at_address, get_words-put_words}

-- A shaded draw in RGB with dither at 8 bits, in a window at the origin.
abbrev rex : Rex3
rex = record {
  color_host = false;
  rwpacked = false;
  rwdouble = false;
  blend_back = false;
  draw_mode0 = 0;
  draw_mode1 = 2 ^ 15 + 2 ^ 16 + 8;
  plane_enable = 1;
  plane_depth = 1;
  hostdepth = 0;
  sfactor = 0;
  dfactor = 0;
  host_shift = 0;
  ls_mode = 0;
  ls_pattern = 0;
  ls_pattern_saved = 0;
  z_pattern = 0;
  color_back = 0;
  color_vram = 0;
  alpha_ref = 0;
  setup = 0;
  step_z = 0;
  x_start = 0;
  y_start = 0;
  x_end = 0;
  y_end = 0;
  x_start_frac = 0;
  y_start_frac = 0;
  x_end_frac = 0;
  y_end_frac = 0;
  x_save = 0;
  xy_move = 0;
  x_move = 0;
  y_move = 0;
  bres_d = 0;
  bres_s1 = 0;
  bres_octant_inc1 = 0;
  bres_round_inc2 = 0;
  bres_e1 = 0;
  bres_s2 = 0;
  a_weight0 = 0;
  a_weight1 = 0;
  x_start_f = 0;
  y_start_f = 0;
  x_end_f = 0;
  y_end_f = 0;
  x_start_i = 0;
  y_start_i = 0;
  x_end_i = 0;
  y_end_i = 0;
  xy_start_i = 0;
  xy_end_i = 0;
  color_red = 0;
  color_alpha = 0;
  color_green = 0;
  color_blue = 0;
  curr_red = 4000;
  curr_alpha = 0;
  curr_green = 0;
  curr_blue = 0;
  slope_red = 2 ^ 23 + 5;
  slope_alpha = 0;
  slope_green = 100;
  slope_blue = 0;
  write_mask = 0;
  color_i = 0;
  zero_overflow = 0;
  host_dataport = 0;
  dcb_mode = 0;
  dcb_reg_select = 0;
  dcb_slave_select = 0;
  dcb_data_msw = 0;
  dcb_data_lsw = 0;
  dcb_mask = 0;
  top_scanline = 0;
  xy_window = 0;
  x_window = 0x1000;
  y_window = 0x1000;
  clip_mode = 2;
  config = 0;
  status = 0;
  smask_x = update (λ _. 0) 1 0x10001100;
  smask_y = update (λ _. 0) 1 0x10001100;
}

-- The exclusive or of a colour with what is drawn, under a mask of 8 bits.
abbrev planes : Rb2
planes = record {
  global_mask = 0xff;
  write_mask = 0xffffff;
  blend = false;
  fast_clear = false;
  plane_enable = 1;
  draw_depth = 1;
  logicop = 6;
  src_shift = 0;
  rgbci = λ i. i;
  cidaux = λ _. 0;
  dest = buf_rgbci;
  ptr_buffer = buf_rgbci;
  ptr_index = 0x53;
}

abbrev engine : Engine
engine = record { rex = rex; rb = planes; go_pixels = 0 }

drawn_word : (rb_write 0x0f planes).rgbci 0x53 ≡ 0x5c
unfolding rb_write rb_store logic planes_up lanes
drawn_word = refl

passing : clip_pass 16 32 rex ≡ true
unfolding clip_pass in_any_mask
passing = refl

clipped_by_mask : clip_pass 257 32 rex ≡ false
unfolding clip_pass in_any_mask
clipped_by_mask = refl

rb_write-IsDrawn_example : IsDrawn 0x0f planes (rb_write 0x0f planes)
rb_write-IsDrawn_example = rb_write-IsDrawn 0x0f planes (omega arith)

output_pixel-IsContained_example :
    IsContained 16 32 engine (output_pixel (λ c r b. b) 16 32 0x0f engine)
output_pixel-IsContained_example =
    output_pixel-IsContained (λ c r b. b) 16 32 0x0f engine refl (omega arith)

span_lane-eq-output_pixel_example :
    contents buf_rgbci (span_lane 16 32 0x0f engine) 43024
    ≡ contents buf_rgbci (output_pixel (λ c r b. b) 16 32 0x0f engine).rb 43024
span_lane-eq-output_pixel_example =
    span_lane-eq-output_pixel (λ c r b. b) 16 32 0x0f engine buf_rgbci 43024 refl (omega arith)
      (omega arith)

pixel_row-eq-span_row_example :
    (unpointed (pixel_row (λ c r b. b) 8 16 32 engine).rb
      ≡ unpointed (span_row 8 0 16 32 rex planes))
    × ((pixel_row (λ c r b. b) 8 16 32 engine).rex ≡ shaded 8 rex)
pixel_row-eq-span_row_example =
    pixel_row-eq-span_row (λ c r b. b) 8 16 32 engine (omega arith) refl refl

abbrev timing : Vc2
timing = record {
  vid_entry = 0;
  cursor_entry = 0;
  cursor_x = 0;
  cursor_y = 0;
  cur_cursor_x = 0;
  did_entry = 0;
  scanline_len = 0;
  ram_addr = 0;
  vt_frame_ptr = 0;
  vt_line_ptr = 0;
  vt_line_run = 0;
  vt_line_count = 0;
  cursor_table_ptr = 0;
  work_cursor_y = 0;
  did_frame_ptr = 0;
  did_line_ptr = 0;
  display_ctrl = 0;
  config = 0;
  reg_idx = 0;
  ram = λ _. 0;
  readout_y0 = 0;
  readout_y1 = 0;
  cursor_on = false;
}

abbrev modes : Xmap9
modes = record {
  config = 0;
  revision = 1;
  cursor_cmap = 0;
  popup_cmap = 0;
  mode_idx = 0;
  mode = λ _. 0;
}

abbrev palette : Cmap
palette = record { status = 8; revision = 0xa1; idx = 0; pal = λ _. 0 }

abbrev gamma : Ramdac
gamma = record { lut_r = λ i. i * 2 ^ 16; lut_g = λ i. i * 2 ^ 8; lut_b = λ i. i; lut_idx = 0 }

abbrev board : Board
board = record {
  rex = rex;
  rb = planes;
  xmap0 = modes;
  xmap1 = modes;
  cmap0 = palette;
  cmap1 = palette;
  vc2 = timing;
  ramdac = gamma;
  vrint_line = false;
  next_vblank = 1000000;
  vblank_period = 1000000;
  nframes = 0;
  backbusy_until = 0;
  icnt = 0;
  poked = false;
}

-- Three words around the end of the RAM.
abbrev three_words : List ℕ
three_words = 7 ∷ 65535 ∷ 9 ∷ []

get_words-put_words_example :
    get_words 3 (at_address 0x7ffe (put_words three_words (at_address 0x7ffe board))) ≡ three_words
get_words-put_words_example =
    get_words-put_words three_words 0x7ffe board (omega arith) (omega arith) refl
