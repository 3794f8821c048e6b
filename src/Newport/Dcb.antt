-- ===== src/Newport/Dcb.antt =====
-- The chips behind the display control bus, and the bus: `xmap9_t`, `cmap_t`, the gamma table of the
-- RAMDAC, `dcb_read` and `dcb_write` (sgi_newport.hh, sgi_newport.cc), with the vertical retrace.
-- What presents the picture, the display and the keyboard's service at a retrace, is left out.
use interp_mips.Prelude.{
  ℕ, ◌+◌, ◌%◌, Bool, true, false, if◌then◌else◌, ◌==◌, ◌&&◌, leb, bits, is_set, set_bit, clear_bit,
  u8, u16, u64, ◌<<<◌, ◌>>>◌, update,
}
use interp_mips.Newport.Rex3.{Rex3}
use interp_mips.Newport.Rb2.{Rb2}
use interp_mips.Newport.Vc2
use interp_mips.Newport.Vc2.{Vc2}

pub record Xmap9 : Type 0 where
  pub config : ℕ
  pub revision : ℕ
  pub cursor_cmap : ℕ
  pub popup_cmap : ℕ
  pub mode_idx : ℕ
  pub mode : ℕ → ℕ

unfoldable pub xmap_read : ℕ → Xmap9 → ℕ
xmap_read r x =
    let m = x.mode (bits x.mode_idx 2 5) in
    if r == 0
    then x.config
    else if r == 1
    then x.revision
    else if r == 2
    then 2
    else if r == 3
    then x.cursor_cmap
    else if r == 4
    then x.popup_cmap
    else if r == 5
    then (if x.mode_idx % 4 == 0
        then bits m 16 8
        else if x.mode_idx % 4 == 1
        then bits m 8 8
        else if x.mode_idx % 4 == 2
        then bits m 0 8
        else 0)
    else if r == 7
    then x.mode_idx
    else 0

unfoldable pub xmap_write : ℕ → ℕ → Xmap9 → Xmap9
xmap_write r d x =
    if r == 0
    then record x { config = bits d 0 8 }
    else if r == 3
    then record x { cursor_cmap = bits d 0 8 }
    else if r == 4
    then record x { popup_cmap = bits d 0 8 }
    else if r == 5
    then record x { mode = update x.mode (bits d 24 5) (bits d 0 24) }
    else if r == 7
    then record x { mode_idx = bits d 0 8 }
    else x

-- The palette; the index does not move on by itself.
pub record Cmap : Type 0 where
  pub status : ℕ
  pub revision : ℕ
  pub idx : ℕ
  pub pal : ℕ → ℕ

unfoldable pub cmap_read : ℕ → Cmap → ℕ
cmap_read r c = if r == 4 then c.status else if r == 6 then c.revision else 0

unfoldable pub cmap_write : ℕ → ℕ → Cmap → Cmap
cmap_write r d c =
    if r == 0
    then record c { idx = u16 d }
    else if r == 2
    then record c { pal = update c.pal c.idx (d >>> 8) }
    else c

pub record Ramdac : Type 0 where
  pub lut_r : ℕ → ℕ
  pub lut_g : ℕ → ℕ
  pub lut_b : ℕ → ℕ
  pub lut_idx : ℕ

unfoldable pub ramdac_write : ℕ → ℕ → Ramdac → Ramdac
ramdac_write r d t =
    if r == 0
    then record t { lut_idx = u8 d }
    else if r == 1
    then record {
      lut_r = update t.lut_r t.lut_idx (bits d 8 8 <<< 16);
      lut_g = update t.lut_g t.lut_idx (bits d 16 8 <<< 8);
      lut_b = update t.lut_b t.lut_idx (bits d 24 8);
      lut_idx = u8 (t.lut_idx + 1);
    }
    else t

-- The board. `icnt` is the processor's count of instructions, `poked` its irq_poke, and
-- `next_vblank` its gfx_next_icnt too.
pub record Board : Type 0 where
  pub rex : Rex3
  pub rb : Rb2
  pub xmap0 : Xmap9
  pub xmap1 : Xmap9
  pub cmap0 : Cmap
  pub cmap1 : Cmap
  pub vc2 : Vc2
  pub ramdac : Ramdac
  pub vrint_line : Bool
  pub next_vblank : ℕ
  pub vblank_period : ℕ
  pub nframes : ℕ
  pub backbusy_until : ℕ
  pub icnt : ℕ
  pub poked : Bool

-- The slaves of the bus.
abbrev pub dcb_vc2 : ℕ
dcb_vc2 = 0

abbrev pub dcb_cmap01 : ℕ
dcb_cmap01 = 1

abbrev pub dcb_cmap0 : ℕ
dcb_cmap0 = 2

abbrev pub dcb_cmap1 : ℕ
dcb_cmap1 = 3

abbrev pub dcb_xmap01 : ℕ
dcb_xmap01 = 4

abbrev pub dcb_xmap0 : ℕ
dcb_xmap0 = 5

abbrev pub dcb_xmap1 : ℕ
dcb_xmap1 = 6

abbrev pub dcb_ramdac : ℕ
dcb_ramdac = 7

abbrev pub dcb_pcd : ℕ
dcb_pcd = 12

abbrev pub dcb_timeout_icnt : ℕ
dcb_timeout_icnt = 100000

-- An access to the slave that is absent keeps the bus busy.
abbrev pub time_out : Board → Board
time_out b = record b {
  rex = record (b.rex) { status = set_bit b.rex.status 4 };
  backbusy_until = u64 (b.icnt + dcb_timeout_icnt);
}

-- The next register, where the mode says so.
abbrev pub next_select : Board → Board
next_select b =
    if is_set b.rex.dcb_mode 3
    then record b { rex = record (b.rex) { dcb_reg_select = bits (b.rex.dcb_reg_select + 1) 0 3 } }
    else b

-- A read of the selected slave.
unfoldable pub slave_read : Board → ℕ × Board
slave_read b =
    let r = b.rex.dcb_reg_select in
    let s = b.rex.dcb_slave_select in
    let v = Vc2.read r b.vc2 in
    if s == dcb_vc2
    then (v.0, record b { vc2 = v.1 })
    else if s == dcb_cmap0
    then (cmap_read r b.cmap0, b)
    else if s == dcb_cmap1
    then (cmap_read r b.cmap1, b)
    else if s == dcb_xmap0
    then (xmap_read r b.xmap0, b)
    else if s == dcb_xmap1
    then (xmap_read r b.xmap1, b)
    else if s == dcb_pcd
    then (0, time_out b)
    else if leb dcb_ramdac s && leb s 9
    then (0, b)
    else (b.rex.dcb_data_msw, b)

unfoldable pub dcb_read : Board → ℕ × Board
dcb_read b = let p = slave_read b in (p.0, next_select (p.1))

unfoldable pub slave_write : ℕ → Board → Board
slave_write d b =
    let r = b.rex.dcb_reg_select in
    let s = b.rex.dcb_slave_select in
    if s == dcb_vc2
    then record b { vc2 = Vc2.write r d b.rex.dcb_mask b.vc2 }
    else if s == dcb_cmap01
    then record b { cmap0 = cmap_write r d b.cmap0; cmap1 = cmap_write r d b.cmap1 }
    else if s == dcb_cmap0
    then record b { cmap0 = cmap_write r d b.cmap0 }
    else if s == dcb_cmap1
    then record b { cmap1 = cmap_write r d b.cmap1 }
    else if s == dcb_xmap01
    then record b { xmap0 = xmap_write r d b.xmap0; xmap1 = xmap_write r d b.xmap1 }
    else if s == dcb_xmap0
    then record b { xmap0 = xmap_write r d b.xmap0 }
    else if s == dcb_xmap1
    then record b { xmap1 = xmap_write r d b.xmap1 }
    else if s == dcb_ramdac
    then record b { ramdac = ramdac_write r d b.ramdac }
    else if s == dcb_pcd
    then time_out b
    else b

unfoldable pub dcb_write : ℕ → Board → Board
dcb_write d b = next_select (slave_write d (record b { rex = record (b.rex) { dcb_data_msw = d } }))

-- The vertical retrace, which VC2 may make an interrupt.
unfoldable pub vblank : ℕ → Board → Board
vblank icnt b =
    let q = record b {
      next_vblank = u64 (icnt + b.vblank_period);
      nframes = u64 (b.nframes + 1);
    } in
    if is_set b.vc2.display_ctrl 0
    then record q {
      rex = record (b.rex) { status = set_bit b.rex.status 5 };
      vrint_line = true;
      poked = true;
    }
    else q

abbrev pub local1_bits : Board → ℕ
local1_bits b = if b.vrint_line then 0x80 else 0

-- A read of the status register, in its upper half STATUS, which acknowledges the retrace, and in
-- its lower half USER_STATUS: the two values and the board after.
unfoldable pub status_read : Bool → Board → (ℕ × ℕ) × Board
status_read hi b =
    let st = b.rex.status in
    let idle = if is_set st 4 && leb b.backbusy_until b.icnt then clear_bit st 4 else st in
    let seen = if hi then clear_bit idle 5 else idle in
    (
      (if hi then set_bit (set_bit idle 0) 1 else 0, seen),
      record b {
        rex = record (b.rex) { status = seen };
        vrint_line = if hi then false else b.vrint_line;
      },
    )
