-- ===== src/Newport/Vc2.antt =====
-- The video timing chip VC2, `sgi_newport::vc2_t` (sgi_newport.hh, sgi_newport.cc): its registers,
-- its RAM of 0x8000 words, the displayed lines and the cursor.
use interp_mips.Prelude.{
  ℕ, zero, suc, ◌+◌, ◌-◌, ◌*◌, ◌/◌, ◌%◌, Bool, true, false, if◌then◌else◌, ◌==◌, ◌||◌, ◌&&◌, not,
  ltb, bits, is_set, u8, u16, ◌>>>◌, update,
}

pub record Vc2 : Type 0 where
  pub vid_entry : ℕ
  pub cursor_entry : ℕ
  pub cursor_x : ℕ
  pub cursor_y : ℕ
  pub cur_cursor_x : ℕ
  pub did_entry : ℕ
  pub scanline_len : ℕ
  pub ram_addr : ℕ
  pub vt_frame_ptr : ℕ
  pub vt_line_ptr : ℕ
  pub vt_line_run : ℕ
  pub vt_line_count : ℕ
  pub cursor_table_ptr : ℕ
  pub work_cursor_y : ℕ
  pub did_frame_ptr : ℕ
  pub did_line_ptr : ℕ
  pub display_ctrl : ℕ
  pub config : ℕ
  pub reg_idx : ℕ
  pub ram : ℕ → ℕ
  pub readout_y0 : ℕ
  pub readout_y1 : ℕ
  pub cursor_on : Bool

abbrev pub vc2_ram_size : ℕ
vc2_ram_size = 0x8000

-- The register that the index names.
unfoldable pub register : Vc2 → ℕ
register v =
    if v.reg_idx == 0x0
    then v.vid_entry
    else if v.reg_idx == 0x1
    then v.cursor_entry
    else if v.reg_idx == 0x2
    then v.cursor_x
    else if v.reg_idx == 0x3
    then v.cursor_y
    else if v.reg_idx == 0x4
    then v.cur_cursor_x
    else if v.reg_idx == 0x5
    then v.did_entry
    else if v.reg_idx == 0x6
    then v.scanline_len
    else if v.reg_idx == 0x7
    then v.ram_addr
    else if v.reg_idx == 0x8
    then v.vt_frame_ptr
    else if v.reg_idx == 0x9
    then v.vt_line_ptr
    else if v.reg_idx == 0xa
    then v.vt_line_run
    else if v.reg_idx == 0xb
    then v.vt_line_count
    else if v.reg_idx == 0xc
    then v.cursor_table_ptr
    else if v.reg_idx == 0xd
    then v.work_cursor_y
    else if v.reg_idx == 0xe
    then v.did_frame_ptr
    else if v.reg_idx == 0xf
    then v.did_line_ptr
    else if v.reg_idx == 0x10
    then v.display_ctrl
    else if v.reg_idx == 0x1f
    then v.config
    else 0

unfoldable pub read : ℕ → Vc2 → ℕ × Vc2
read r v =
    if r == 1
    then (register v, v)
    else if r == 3
    then (v.ram v.ram_addr, record v { ram_addr = (v.ram_addr + 1) % vc2_ram_size })
    else (0, v)

-- Whether a line of the timing table at p has a run in which the video is active: `vt_line_active`,
-- with its guard of steps.
unfoldable pub line_active : ℕ → (ℕ → ℕ) → ℕ → ℕ → Bool → Bool → Bool
line_active zero ram p sc eol_sa eol_sb = false
line_active (suc guard) ram p sc eol_sa eol_sb =
    let w = ram (p % vc2_ram_size) in
    let w1 = ram ((p + 1) % vc2_ram_size) in
    let short = is_set w 7 in
    let next = if short then p + 1 else p + 2 in
    let state = if short then sc else bits w1 0 7 in
    let run = bits (ram (next % vc2_ram_size)) 8 7 in
    let rest =
      line_active guard ram next state (is_set w 15) (if short then true else is_set w1 15) in
    if eol_sa && eol_sb then false else if not (run == 0) && is_set state 6 then true else rest

abbrev pub vt_line_active : (ℕ → ℕ) → ℕ → Bool
vt_line_active ram p = line_active 4096 ram p 0 false false

-- The progress of `update_screen_size`.
pub record Scan : Type 0 where
  pub line : ℕ
  pub y_started : Bool
  pub y_done : Bool
  pub y0 : ℕ
  pub y1 : ℕ

abbrev pub scan_line : Bool → Scan → Scan
scan_line active s =
    if active && not s.y_started
    then record s { line = s.line + 1; y_started = true; y0 = s.line }
    else if (not active && s.y_started) && not s.y_done
    then record s { line = s.line + 1; y_done = true; y1 = s.line }
    else record s { line = s.line + 1 }

unfoldable pub scan_lines : ℕ → Bool → Scan → Scan
scan_lines zero active s = s
scan_lines (suc left) active s =
    let rest = scan_lines left active (scan_line active s) in if ltb s.line 2048 then rest else s

unfoldable pub scan_table : ℕ → (ℕ → ℕ) → ℕ → Scan → Scan
scan_table zero ram entry s = s
scan_table (suc guard) ram entry s =
    let pointer = ram (entry % vc2_ram_size) in
    let count = ram ((entry + 1) % vc2_ram_size) in
    let rest = scan_table guard ram (entry + 2) (scan_lines count (vt_line_active ram pointer) s) in
    if s.y_done || (count == 0) then s else rest

unfoldable pub update_screen_size : Vc2 → Vc2
update_screen_size v =
    let start : Scan = record { line = 0; y_started = false; y_done = false; y0 = 0; y1 = 0 } in
    let s = scan_table 4096 v.ram v.vid_entry start in
    record v {
      readout_y0 = s.y0;
      readout_y1 = if s.y_started && not s.y_done then s.line else s.y1;
    }

-- A register write: the index is in the upper byte, the value in the next two.
unfoldable pub write_register : ℕ → ℕ → Vc2 → Vc2
write_register index d v =
    if index == 0x0
    then update_screen_size (record v { vid_entry = d })
    else if index == 0x1
    then record v { cursor_entry = d }
    else if index == 0x2
    then record v { cursor_x = d }
    else if index == 0x3
    then record v { cursor_y = d; cur_cursor_x = v.cursor_x }
    else if index == 0x4
    then record v { cur_cursor_x = d }
    else if index == 0x5
    then record v { did_entry = d }
    else if index == 0x6
    then record v { scanline_len = d }
    else if index == 0x7
    then record v { ram_addr = d % vc2_ram_size }
    else if index == 0x8
    then record v { vt_frame_ptr = d }
    else if index == 0x9
    then record v { vt_line_ptr = d }
    else if index == 0xa
    then record v { vt_line_run = d }
    else if index == 0xb
    then record v { vt_line_count = d }
    else if index == 0xc
    then record v { cursor_table_ptr = d }
    else if index == 0xd
    then record v { work_cursor_y = d }
    else if index == 0xe
    then record v { did_frame_ptr = d }
    else if index == 0xf
    then record v { did_line_ptr = d }
    else if index == 0x10
    then record v { display_ctrl = d; cursor_on = (is_set d 4 && is_set d 7) && not (is_set d 8) }
    else if index == 0x1f
    then record v { config = d }
    else v

-- A write of a byte selects a register, one of two bytes is a word of the RAM, and any other is that
-- of a register.
unfoldable pub write : ℕ → ℕ → ℕ → Vc2 → Vc2
write r d mask v =
    if mask == 0xff
    then (if r == 0 then record v { reg_idx = u8 d } else v)
    else if mask == 0xffff
    then (if r == 3
        then record v {
          ram = update v.ram v.ram_addr (u16 d);
          ram_addr = (v.ram_addr + 1) % vc2_ram_size;
        }
        else v)
    else if r == 0
    then write_register (u8 (d >>> 24)) (u16 (d >>> 8)) (record v { reg_idx = u8 (d >>> 24) })
    else v

-- The two bits of the cursor at (x, y), or 0 outside it; the glyph of 64 pixels has one.
unfoldable pub cursor_pixel : ℕ → ℕ → Vc2 → ℕ
cursor_pixel x y v =
    let outside =
      ((ltb (x + 31) v.cursor_x || ltb v.cursor_x x) || ltb (y + 31) v.cursor_y)
      || ltb v.cursor_y y in
    let cx = x + 31 - v.cursor_x in
    let cy = y + 31 - v.cursor_y in
    let shift = 15 - cx % 16 in
    let wide = v.cursor_entry + cy * 4 + cx / 16 in
    let a = v.cursor_entry + cy * 2 + cx / 16 in
    if not v.cursor_on || outside
    then 0
    else if is_set v.display_ctrl 9
    then bits (v.ram (wide % vc2_ram_size)) shift 1
    else bits (v.ram (a % vc2_ram_size)) shift 1
      + 2 * bits (v.ram ((a + 64) % vc2_ram_size)) shift 1
