-- ===== src/Newport/Colour.antt =====
-- The colours of a draw: `default_color`, `rgb_from`, `iterate_shade` and `host_color`
-- (sgi_newport.cc). Each `|` joins fields that share no bit, and is their sum, but where a colour is
-- joined with its own shift. A slope is the bit pattern of an int32_t.
use interp_mips.Prelude.{
  ℕ, ◌+◌, ◌-◌, ◌%◌, ◌^◌, if◌then◌else◌, ◌==◌, ◌||◌, ◌&&◌, ltb, leb, not, bits, is_set, u8, u32,
  ◌<<<◌, ◌>>>◌,
}
use interp_mips.Memory.Sparse.{bswap32}
use interp_mips.Newport.Rex3.{Rex3}
use interp_mips.Newport.Rb2.{lanes}
use interp_mips.Newport.Depth.{convert_depth}

unfoldable pub default_color : ℕ → Rex3 → ℕ
default_color src r =
    let c = if is_set r.draw_mode1 17 then r.color_vram else src in
    let picked =
      if is_set r.draw_mode1 15
      then bits r.color_vram 20 4 <<< 8 + bits r.color_vram 12 4 <<< 4 + bits r.color_vram 4 4
      else bits c 0 12 in
    if r.plane_depth == 0
    then lanes 0 (bits c 0 4)
    else if r.plane_depth == 1
    then lanes 1 (bits c 0 8)
    else if r.plane_depth == 2
    then lanes 2 picked
    else bits r.color_vram 0 24

-- An iterator as an 8-bit channel.
abbrev pub clamp : ℕ → ℕ
clamp c =
    let v = bits c 11 9 in if leb 0x180 v || is_set c 31 then 0 else if ltb 0xff v then 0xff else v

-- The order of the dither, `s_bayer[x & 3][y & 3]`, a row after the other.
abbrev pub bayer_row : ℕ → ℕ → ℕ → ℕ → ℕ → ℕ
bayer_row a b c d y =
    if y % 4 == 0 then a else if y % 4 == 1 then b else if y % 4 == 2 then c else d

unfoldable pub s_bayer : ℕ → ℕ → ℕ
s_bayer x y =
    if x % 4 == 0
    then bayer_row 0 12 3 15 y
    else if x % 4 == 1
    then bayer_row 8 4 11 7 y
    else if x % 4 == 2
    then bayer_row 2 14 1 13 y
    else bayer_row 10 6 9 5 y

-- `d = (s >> 4) & top; if((s & 0xf) > bay) { d++; } if(d > top) { d = top; }`, with top = 2 ^ w - 1.
abbrev pub dithered : ℕ → ℕ → ℕ → ℕ
dithered w bay s =
    let d = bits s 4 w in
    let e = if ltb bay (bits s 0 4) then d + 1 else d in if ltb (2 ^ w - 1) e then 2 ^ w - 1 else e

unfoldable pub dither : ℕ → ℕ → ℕ → ℕ → ℕ → ℕ
dither depth bay red green blue =
    let c0 =
      dithered 1 bay (u8 (blue >>> 3 - blue >>> 4)) <<< 3
      + dithered 2 bay (u8 (green >>> 2 - green >>> 4)) <<< 1
      + dithered 1 bay (u8 (red >>> 3 - red >>> 4)) in
    let c2 =
      dithered 4 bay (blue - blue >>> 4) <<< 8
      + dithered 4 bay (green - green >>> 4) <<< 4
      + dithered 4 bay (red - red >>> 4) in
    if depth == 0
    then c0 <<< 4 + c0
    else if depth == 1
    then dithered 2 bay (u8 (blue >>> 2 - blue >>> 4)) <<< 6
      + dithered 3 bay (u8 (green >>> 1 - green >>> 4)) <<< 3
      + dithered 3 bay (u8 (red >>> 1 - red >>> 4))
    else if depth == 2
    then c2 <<< 12 + c2
    else blue <<< 16 + green <<< 8 + red

-- The shading colour for the iterators cr, cg, cb and ca at (x, y).
unfoldable pub rgb_from : ℕ → ℕ → ℕ → ℕ → ℕ → ℕ → Rex3 → ℕ
rgb_from cr cg cb ca x y r =
    if not (is_set r.draw_mode1 15)
    then default_color cr r
    else if is_set r.draw_mode1 16
    then clamp ca <<< 24 + dither r.plane_depth (s_bayer x y) (clamp cr) (clamp cg) (clamp cb)
    else clamp ca <<< 24
      + convert_depth (clamp cb <<< 16 + clamp cg <<< 8 + clamp cr) 3 r.plane_depth

abbrev pub rgb_color : ℕ → ℕ → Rex3 → ℕ
rgb_color x y r = rgb_from r.curr_red r.curr_green r.curr_blue r.curr_alpha x y r

-- The lower w bits of a slope, sign-extended to 32.
abbrev pub sext_to_32 : ℕ → ℕ → ℕ
sext_to_32 w v = if ltb (v % 2 ^ w) (2 ^ (w - 1)) then v % 2 ^ w else v % 2 ^ w + (2 ^ 32 - 2 ^ w)

-- `if(slope & mask) { curr += sext(slope, w); }`, where the mask has the w - 1 lower bits.
abbrev pub advance : ℕ → ℕ → ℕ → ℕ
advance w slope curr = if slope % 2 ^ (w - 1) == 0 then curr else u32 (curr + sext_to_32 w slope)

-- The iterators after the slopes.
unfoldable pub add_slopes : Rex3 → Rex3
add_slopes r = record r {
  curr_red = advance 24 r.slope_red r.curr_red;
  curr_green = advance 20 r.slope_green r.curr_green;
  curr_blue = advance 20 r.slope_blue r.curr_blue;
  curr_alpha = advance 20 r.slope_alpha r.curr_alpha;
}

abbrev pub clamped : ℕ → ℕ
clamped c =
    let v = bits c 11 9 in
    if leb 0x180 v || is_set c 31 then 0 else if ltb 0xff v then 0x7ffff else c

abbrev pub clamp_index : ℕ → ℕ → ℕ
clamp_index depth red =
    if (depth == 0) && is_set red 15
    then 0x00007fff
    else if (depth == 1) && is_set red 19
    then 0x0007ffff
    else if (depth == 2) && is_set red 21
    then 0x001fffff
    else red

unfoldable pub iterate_shade : Rex3 → Rex3
iterate_shade r =
    let q = add_slopes r in
    if not (is_set r.draw_mode0 21)
    then q
    else if is_set r.draw_mode1 15
    then record q {
      curr_red = clamped q.curr_red;
      curr_green = clamped q.curr_green;
      curr_blue = clamped q.curr_blue;
      curr_alpha = clamped q.curr_alpha;
    }
    else record q { color_red = clamp_index (bits r.draw_mode1 3 2) q.color_red }

abbrev pub s_host_shifts : ℕ → ℕ
s_host_shifts depth = if depth == 2 then 16 else if depth == 3 then 32 else 8

-- `s_masks[hostdepth]`, as a width.
abbrev pub host_width : ℕ → ℕ
host_width depth = if depth == 0 then 4 else if depth == 1 then 8 else if depth == 2 then 12 else 32

-- The next colour of the host data port.
unfoldable pub host_color : Rex3 → ℕ × Rex3
host_color r =
    let raw = u32 (r.host_dataport >>> r.host_shift) % 2 ^ host_width r.hostdepth in
    let left = (r.rwdouble && ltb 0 r.host_shift) || ltb 32 r.host_shift in
    let next =
      if not r.rwpacked
      then r.host_shift
      else if left
      then u32 (r.host_shift + 2 ^ 32 - s_host_shifts r.hostdepth)
      else 64 - s_host_shifts r.hostdepth in
    let color = convert_depth raw r.hostdepth r.plane_depth in
    (if is_set r.draw_mode1 11 then bswap32 color else color, record r { host_shift = next })
