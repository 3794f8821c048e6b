-- ===== src/Newport/Bus.antt =====
-- The accesses of the guest to the board: the dispatch of `sgi_newport::rex3_w`, `rex3_r`, and the
-- access by size with its byte order, `read` and `write` (sgi_newport.cc). `offs` is the offset of
-- the line without the bit that starts a command, and the command that follows is left out; an access
-- does not cross its line of 8 bytes. The trace and the log are off.
use interp_mips.Prelude.{
  ℕ, ◌+◌, ◌-◌, ◌*◌, ◌/◌, ◌%◌, ◌^◌, Bool, not, if◌then◌else◌, ◌==◌, ltb, bits, u8, u16, u32,
  clear_bit, ◌||◌, ◌<<<◌, ◌>>>◌, Option, none, some,
}
use interp_mips.Memory.Sparse.{bswap16, bswap32, bswap64}
use interp_mips.Newport.Rex3.{Rex3}
use interp_mips.Newport.Rb2.{rb_set_flags}
use interp_mips.Newport.Clip.{extended}
use interp_mips.Newport.Dcb.{Board, dcb_write, dcb_read, status_read}
use interp_mips.Newport.Registers.{draw_modes, write_mode, write_place, write_colour}

-- The mode of the display control bus.
unfoldable pub dcb_mode_of : ℕ → Rex3 → Rex3
dcb_mode_of h r = record r {
  dcb_mask = if h % 4 == 1 then 0xff else if h % 4 == 2 then 0xffff else 2 ^ 32 - 1;
  dcb_reg_select = bits h 4 3;
  dcb_slave_select = bits h 7 4;
  dcb_mode = bits h 0 29;
}

unfoldable pub write_dcb : ℕ → ℕ → Bool → Bool → Board → Board
write_dcb h l hi lo b =
    let q = if hi then dcb_write h b else b in
    if lo then record q { rex = record (q.rex) { dcb_data_lsw = l } } else q

unfoldable pub rex3_w : ℕ → ℕ → ℕ → Bool → Bool → Board → Board
rex3_w line value mask hi lo b =
    let offs = clear_bit line 8 * 8 in
    let h = value >>> 32 in
    let l = u32 value in
    if offs == 0x0000
    then record b {
      rex = draw_modes h l hi lo b.rex;
      rb = if hi then rb_set_flags h b.rb else b.rb;
    }
    else if offs == 0x0220
    then record b {
      rex = write_colour offs value mask hi lo b.rex;
      rb = if hi then record (b.rb) { write_mask = bits h 0 24 } else b.rb;
    }
    else if offs == 0x0238
    then (if hi then record b { rex = dcb_mode_of h b.rex } else b)
    else if offs == 0x0240
    then write_dcb h l hi lo b
    else if ltb offs 0x0100
    then record b { rex = write_mode offs h l hi lo b.rex }
    else if ltb offs 0x0200
    then record b { rex = write_place offs h l hi lo b.rex }
    else if ltb offs 0x0300
    then record b { rex = write_colour offs value mask hi lo b.rex }
    else record b { rex = write_mode offs h l hi lo b.rex }

-- The registers whose read has no effect, as the two halves.
unfoldable pub halves : ℕ → Rex3 → Option (ℕ × ℕ)
halves offs r =
    if offs == 0x0
    then some (r.draw_mode1, r.draw_mode0)
    else if offs == 0x8
    then some (r.ls_mode, r.ls_pattern)
    else if offs == 0x10
    then some (r.ls_pattern_saved, r.z_pattern)
    else if offs == 0x18
    then some (r.color_back, r.color_vram)
    else if offs == 0x20
    then some (r.alpha_ref, 0)
    else if offs == 0x28
    then some (r.smask_x 0, r.smask_y 0)
    else if offs == 0x30
    then some (r.setup, 0)
    else if offs == 0x100
    then some (r.x_start, r.y_start)
    else if offs == 0x108
    then some (r.x_end, r.y_end)
    else if offs == 0x110
    then some (r.x_save, r.xy_move)
    else if offs == 0x118
    then some (r.bres_d, r.bres_s1)
    else if offs == 0x120
    then some (r.bres_octant_inc1, r.bres_round_inc2)
    else if offs == 0x128
    then some (r.bres_e1, r.bres_s2)
    else if offs == 0x130
    then some (r.a_weight0, r.a_weight1)
    else if offs == 0x138
    then some (r.x_start_f, r.y_start_f)
    else if offs == 0x140
    then some (r.x_end_f, r.y_end_f)
    else if offs == 0x148
    then some (extended r.x_start_i, r.x_end_f)
    else if offs == 0x150
    then some (r.xy_start_i, r.xy_end_i)
    else if offs == 0x158
    then some (0, 0)
    else if offs == 0x200
    then some (r.color_red, r.color_alpha)
    else if offs == 0x208
    then some (r.color_green, r.color_blue)
    else if offs == 0x210
    then some (r.slope_red, r.slope_alpha)
    else if offs == 0x218
    then some (r.slope_green, r.slope_blue)
    else if offs == 0x220
    then some (r.write_mask, r.color_i)
    else if offs == 0x228
    then some (r.zero_overflow, r.slope_red)
    else if offs == 0x230
    then some (r.host_dataport >>> 32, u32 r.host_dataport)
    else if offs == 0x238
    then some (r.dcb_mode, 0)
    else if offs == 0x1300
    then some (r.smask_x 1, r.smask_y 1)
    else if offs == 0x1308
    then some (r.smask_x 2, r.smask_y 2)
    else if offs == 0x1310
    then some (r.smask_x 3, r.smask_y 3)
    else if offs == 0x1318
    then some (r.smask_x 4, r.smask_y 4)
    else if offs == 0x1320
    then some (r.top_scanline, r.xy_window)
    else if offs == 0x1328
    then some (r.clip_mode, 0)
    else if offs == 0x1330
    then some (r.config, 0)
    else none

abbrev pub joined : Bool → Bool → ℕ → ℕ → ℕ
joined hi lo h l = (if hi then h else 0) <<< 32 + (if lo then l else 0)

abbrev pub from_halves : Bool → Bool → Option (ℕ × ℕ) → ℕ
from_halves hi lo none = 0
from_halves hi lo (some p) = joined hi lo (p.0) (p.1)

unfoldable pub rex3_r : ℕ → Bool → Bool → Board → ℕ × Board
rex3_r line hi lo b =
    let offs = clear_bit line 8 * 8 in
    let d = dcb_read b in
    let s = status_read hi b in
    if offs == 0x0240
    then (if hi
        then (joined hi lo (d.0) (d.1).rex.dcb_data_lsw, d.1)
        else (joined hi lo 0 b.rex.dcb_data_lsw, b))
    else if offs == 0x1338
    then (joined hi lo ((s.0).0) ((s.0).1), s.1)
    else (from_halves hi lo (halves offs b.rex), b)

-- The bits of an access of sz bytes at an offset, the first byte uppermost: its shift, and its mask.
abbrev pub lane_shift : ℕ → ℕ → ℕ
lane_shift offs sz = (8 - offs % 8 - sz) * 8

abbrev pub lane_mask : ℕ → ℕ → ℕ
lane_mask offs sz = if sz == 8 then 2 ^ 64 - 1 else (2 ^ (sz * 8) - 1) <<< lane_shift offs sz

abbrev pub swapped : ℕ → ℕ → ℕ
swapped sz v =
    if sz == 8
    then bswap64 v
    else if sz == 4
    then bswap32 (u32 v)
    else if sz == 2
    then bswap16 (u16 v)
    else v

unfoldable pub read : ℕ → ℕ → Board → ℕ × Board
read offs sz b =
    let m = lane_mask offs sz in
    let p = rex3_r (offs / 8) (not (m >>> 32 == 0)) (not (u32 m == 0)) b in
    let v = if sz == 8 then p.0 else (p.0 >>> lane_shift offs sz) % 2 ^ (sz * 8) in
    (swapped sz v, p.1)

unfoldable pub write : ℕ → ℕ → ℕ → Board → Board
write offs v sz b =
    let byte_sized = not (((sz == 8) || (sz == 4)) || (sz == 2)) in
    let g = if byte_sized then u8 v else swapped sz v in
    let m = lane_mask offs sz in
    rex3_w (offs / 8) (if sz == 8 then g else g <<< lane_shift offs sz) m (not (m >>> 32 == 0))
      (not (u32 m == 0)) b
