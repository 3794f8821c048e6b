-- ===== src/Newport/Rb2.antt =====
-- The framebuffer of the raster engine, `sgi_newport::rb2_t` with `rb_set_flags`, `rb_read`,
-- `rb_write` and `rb_store` (sgi_newport.hh, sgi_newport.cc). A pointer into a buffer is the buffer
-- with an index, so that a change of `dest` does not move it. Touch tracking is off.
use interp_mips.Prelude.{
  ℕ, bit_and, bit_or, bit_xor, Bool, if◌then◌else◌, ◌==◌, ◌||◌, bits, is_set, u32, ◌<<<◌, ◌>>>◌,
  update,
}
use interp_mips.Newport.Bit.{not32}

pub data Buffer : Type 0 where
  buf_rgbci : Buffer
  buf_cidaux : Buffer

pub record Rb2 : Type 0 where
  pub global_mask : ℕ
  pub write_mask : ℕ
  pub blend : Bool
  pub fast_clear : Bool
  pub plane_enable : ℕ
  pub draw_depth : ℕ
  pub logicop : ℕ
  pub src_shift : ℕ
  pub rgbci : ℕ → ℕ
  pub cidaux : ℕ → ℕ
  pub dest : Buffer
  pub ptr_buffer : Buffer
  pub ptr_index : ℕ

-- `s_shift[plane_enable][draw_depth][dblsrc]`.
abbrev pub shift_of : ℕ → ℕ → Bool → ℕ
shift_of plane depth double =
    if (plane == 1) || (plane == 2)
    then (if depth == 1
        then (if double then 8 else 0)
        else if depth == 2
        then (if double then 12 else 0)
        else 0)
    else if plane == 4
    then (if double then 16 else 8)
    else if plane == 5
    then (if double then 6 else 2)
    else if plane == 6
    then (if double then 4 else 0)
    else 0

-- The buffer of the planes; no or invalid planes keep the last one.
abbrev pub dest_of : ℕ → Buffer → Buffer
dest_of plane d =
    if (plane == 1) || (plane == 2)
    then buf_rgbci
    else if ((plane == 4) || (plane == 5)) || (plane == 6)
    then buf_cidaux
    else d

unfoldable pub rb_set_flags : ℕ → Rb2 → Rb2
rb_set_flags m1 r = record r {
  blend = is_set m1 18;
  fast_clear = is_set m1 17;
  plane_enable = bits m1 0 3;
  draw_depth = bits m1 3 2;
  logicop = bits m1 28 4;
  src_shift = shift_of (bits m1 0 3) (bits m1 3 2) (is_set m1 5);
  dest = dest_of (bits m1 0 3) r.dest;
}

abbrev pub rb_set_addr : ℕ → Rb2 → Rb2
rb_set_addr a r = record r { ptr_buffer = r.dest; ptr_index = a }

abbrev pub contents : Buffer → Rb2 → ℕ → ℕ
contents buf_rgbci r = r.rgbci
contents buf_cidaux r = r.cidaux

-- `*rb.ptr`, and a store to it.
abbrev pub at_ptr : Rb2 → ℕ
at_ptr r = contents r.ptr_buffer r r.ptr_index

abbrev pub put_in : Buffer → ℕ → ℕ → Rb2 → Rb2
put_in buf_rgbci i v r = record r { rgbci = update r.rgbci i v }
put_in buf_cidaux i v r = record r { cidaux = update r.cidaux i v }

abbrev pub rb_read : Rb2 → ℕ
rb_read r = at_ptr r >>> r.src_shift

unfoldable pub rb_store : ℕ → Rb2 → Rb2
rb_store v r =
    let m = bit_and r.write_mask r.global_mask in
    put_in r.ptr_buffer r.ptr_index (bit_or (bit_and (at_ptr r) (not32 m)) (bit_and v m)) r

-- `src |= src << k`.
abbrev pub doubled_up : ℕ → ℕ → ℕ
doubled_up k src = bit_or src (u32 (src <<< k))

-- A colour in every lane of the depth, moved up to its planes.
unfoldable pub lanes : ℕ → ℕ → ℕ
lanes depth src =
    if depth == 0
    then doubled_up 16 (doubled_up 8 (doubled_up 4 src))
    else if depth == 1
    then doubled_up 16 (doubled_up 8 src)
    else if depth == 2
    then doubled_up 12 src
    else src

unfoldable pub planes_up : ℕ → ℕ → ℕ
planes_up plane src =
    if plane == 4 then u32 (src <<< 8) else if plane == 5 then u32 (src <<< 2) else src

unfoldable pub logic : ℕ → ℕ → ℕ → ℕ
logic o src dst =
    if o == 0
    then 0
    else if o == 1
    then bit_and src dst
    else if o == 2
    then bit_and src (not32 dst)
    else if o == 3
    then src
    else if o == 4
    then bit_and (not32 src) dst
    else if o == 5
    then dst
    else if o == 6
    then bit_xor src dst
    else if o == 7
    then bit_or src dst
    else if o == 8
    then not32 (bit_or src dst)
    else if o == 9
    then not32 (bit_xor src dst)
    else if o == 10
    then not32 dst
    else if o == 11
    then bit_or src (not32 dst)
    else if o == 12
    then not32 src
    else if o == 13
    then bit_or (not32 src) dst
    else if o == 14
    then not32 (bit_and src dst)
    else 0xffffff

unfoldable pub rb_write : ℕ → Rb2 → Rb2
rb_write src r =
    let s = planes_up r.plane_enable (lanes r.draw_depth src) in
    if r.blend || r.fast_clear then rb_store s r else rb_store (logic r.logicop s (rb_read r)) r
