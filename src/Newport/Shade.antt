-- ===== src/Newport/Shade.antt =====
-- The shading colours of the span kernel, `sgi_newport::span_fast` with `span_clamp` and
-- `dither_lane` (sgi_newport.cc), which computes lane k from the start of the row and by additions
-- in place of the branches of the path by pixels.
use interp_mips.Prelude.{
  ℕ, zero, suc, ◌+◌, ◌-◌, ◌*◌, ◌%◌, ◌^◌, ◌<◌, ◌≡◌, inl, inr, refl, sym, ap, ◌∙◌, arith, Bool, true,
  false, if◌then◌else◌, ◌==◌, ◌||◌, ltb, leb, bits, is_set, ◌&&◌, u32, u8, ◌<<<◌, ◌>>>◌, Bool-cases,
}
use interp_mips.Newport.Rex3.{Rex3}
use interp_mips.Newport.Colour.{
  clamp, s_bayer, dithered, dither, rgb_from, rgb_color, sext_to_32, advance, add_slopes,
  iterate_shade,
}

abbrev pub span_clamp : ℕ → ℕ
span_clamp c =
    let v = bits c 11 9 in
    let lim = if ltb 0xff v then 0xff else v in if leb 0x180 v || is_set c 31 then 0 else lim

-- `((s >> 4) & top) + ((s & 0xf) > bay)`, at most top = 2 ^ w - 1.
abbrev pub lane_level : ℕ → ℕ → ℕ → ℕ
lane_level w bay s =
    let d = bits s 4 w + (if ltb bay (bits s 0 4) then 1 else 0) in
    if ltb (2 ^ w - 1) d then 2 ^ w - 1 else d

-- The levels of three channels, under an alpha in place.
unfoldable pub lane_levels : ℕ → ℕ → ℕ → ℕ → ℕ → ℕ → ℕ
lane_levels depth bay alpha red green blue =
    let c0 =
      lane_level 1 bay (blue >>> 3 - blue >>> 4) <<< 3
      + lane_level 2 bay (green >>> 2 - green >>> 4) <<< 1
      + lane_level 1 bay (red >>> 3 - red >>> 4) in
    let c2 =
      lane_level 4 bay (blue - blue >>> 4) <<< 8
      + lane_level 4 bay (green - green >>> 4) <<< 4
      + lane_level 4 bay (red - red >>> 4) in
    if depth == 0
    then alpha + (c0 <<< 4 + c0)
    else if depth == 1
    then alpha
      + (lane_level 2 bay (blue >>> 2 - blue >>> 4) <<< 6
          + lane_level 3 bay (green >>> 1 - green >>> 4) <<< 3
          + lane_level 3 bay (red >>> 1 - red >>> 4))
    else if depth == 2
    then alpha + (c2 <<< 12 + c2)
    else alpha + (blue <<< 16 + green <<< 8 + red)

unfoldable pub dither_lane : ℕ → ℕ → ℕ → ℕ → ℕ → ℕ → ℕ
dither_lane depth cr cg cb ca bay =
    lane_levels depth bay (span_clamp ca <<< 24) (span_clamp cr) (span_clamp cg) (span_clamp cb)

-- `(slope & mask) ? sx(slope, w) : 0`.
abbrev pub lane_slope : ℕ → ℕ → ℕ
lane_slope w slope = if slope % 2 ^ (w - 1) == 0 then 0 else sext_to_32 w slope

-- `start + (k + 1) * slope`, in 32 bits.
abbrev pub lane_iterator : ℕ → ℕ → ℕ → ℕ
lane_iterator k start slope = u32 (start + (k + 1) * slope)

-- The colour of lane k of a row from x at y.
unfoldable pub lane_colour : ℕ → ℕ → ℕ → Rex3 → ℕ
lane_colour k x y r =
    dither_lane r.plane_depth (lane_iterator k r.curr_red (lane_slope 24 r.slope_red))
      (lane_iterator k r.curr_green (lane_slope 20 r.slope_green))
      (lane_iterator k r.curr_blue (lane_slope 20 r.slope_blue))
      (lane_iterator k r.curr_alpha (lane_slope 20 r.slope_alpha)) (s_bayer (x + k) y)

-- The registers after the shading of n pixels, one after the other.
abbrev pub shade_times : ℕ → Rex3 → Rex3
shade_times zero r = r
shade_times (suc n) r = shade_times n (iterate_shade r)

clamp-same : (c : ℕ) → span_clamp c ≡ clamp c
clamp-same c = refl

clamp-lt : (c : ℕ) → clamp c < 2 ^ 8
clamp-lt c = ground arith

one_more : (d : ℕ) (b : Bool) → d + (if b then 1 else 0) ≡ (if b then d + 1 else d)
one_more d true = refl
one_more d false = omega arith

level-same : (w bay s : ℕ) → lane_level w bay s ≡ dithered w bay s
level-same w bay s =
    ap (λ t. if ltb (2 ^ w - 1) t then 2 ^ w - 1 else t)
      (one_more (bits s 4 w) (ltb bay (bits s 0 4)))

level-u8 : (w bay s : ℕ) → s < 2 ^ 8 → lane_level w bay s ≡ dithered w bay (u8 s)
level-u8 w bay s h = level-same w bay s ∙ ap (λ t. dithered w bay t) (omega arith)

-- A sum with one of four is one of the four sums.
add_choice :
    (a b c : Bool) (alpha x y z w : ℕ)
    → (if a then alpha + x else if b then alpha + y else if c then alpha + z else alpha + w)
      ≡ alpha + (if a then x else if b then y else if c then z else w)
add_choice true b c alpha x y z w = refl
add_choice false true c alpha x y z w = refl
add_choice false false true alpha x y z w = refl
add_choice false false false alpha x y z w = refl

lane_levels-same :
    (depth bay alpha r g b : ℕ)
    → r < 2 ^ 8
    → g < 2 ^ 8
    → b < 2 ^ 8
    → lane_levels depth bay alpha r g b ≡ alpha + dither depth bay r g b
unfolding lane_levels dither
lane_levels-same depth bay alpha r g b hr hg hb =
    let b0 = level-u8 1 bay (b >>> 3 - b >>> 4) (omega arith) in
    let g0 = level-u8 2 bay (g >>> 2 - g >>> 4) (omega arith) in
    let r0 = level-u8 1 bay (r >>> 3 - r >>> 4) (omega arith) in
    let b1 = level-u8 2 bay (b >>> 2 - b >>> 4) (omega arith) in
    let g1 = level-u8 3 bay (g >>> 1 - g >>> 4) (omega arith) in
    let r1 = level-u8 3 bay (r >>> 1 - r >>> 4) (omega arith) in
    let b2 = level-same 4 bay (b - b >>> 4) in
    let g2 = level-same 4 bay (g - g >>> 4) in
    let r2 = level-same 4 bay (r - r >>> 4) in
    add_choice (depth == 0) (depth == 1) (depth == 2) alpha _ _ _ _
    ∙ simp (b0, g0, r0, b1, g1, r1, b2, g2, r2) refl

dither_lane-same :
    (depth bay cr cg cb ca : ℕ)
    → dither_lane depth cr cg cb ca bay
      ≡ clamp ca <<< 24 + dither depth bay (clamp cr) (clamp cg) (clamp cb)
unfolding dither_lane
dither_lane-same depth bay cr cg cb ca =
    lane_levels-same depth bay (clamp ca <<< 24) (clamp cr) (clamp cg) (clamp cb) (clamp-lt cr)
      (clamp-lt cg) (clamp-lt cb)

wrapped : (c e n : ℕ) → u32 (u32 (c + e) + n * e) ≡ u32 (c + suc n * e)
wrapped c e n = omega (arith, product n e)
  where
    product : (n e : ℕ) → suc n * e ≡ n * e + e
    product n e = grind arith

advance-again :
    (w slope c n : ℕ)
    → u32 (advance w slope c + n * lane_slope w slope) ≡ u32 (c + suc n * lane_slope w slope)
advance-again w slope c n = elim (Bool-cases (slope % 2 ^ (w - 1) == 0)) [
  | inl e ↦ simp e (omega arith)
  | inr e ↦ simp e (wrapped c (sext_to_32 w slope) n)
]

-- The iterators after n pixels, at one multiplication each.
abbrev pub shaded : ℕ → Rex3 → Rex3
shaded n r = record r {
  curr_red = u32 (r.curr_red + n * lane_slope 24 r.slope_red);
  curr_green = u32 (r.curr_green + n * lane_slope 20 r.slope_green);
  curr_blue = u32 (r.curr_blue + n * lane_slope 20 r.slope_blue);
  curr_alpha = u32 (r.curr_alpha + n * lane_slope 20 r.slope_alpha);
}

-- The four iterators are 32-bit.
abbrev pub is_iterating : Rex3 → Bool
is_iterating r =
    ((ltb r.curr_red (2 ^ 32) && ltb r.curr_green (2 ^ 32)) && ltb r.curr_blue (2 ^ 32))
    && ltb r.curr_alpha (2 ^ 32)

unclamped : (r : Rex3) → is_set r.draw_mode0 21 ≡ false → iterate_shade r ≡ add_slopes r
unfolding iterate_shade
unclamped r e = simp e refl

with_iterators : ℕ → ℕ → ℕ → ℕ → Rex3 → Rex3
with_iterators a b c d r = record r { curr_red = a; curr_green = b; curr_blue = c; curr_alpha = d }

same_iterators :
    (r : Rex3) (a b c d a' b' c' d' : ℕ)
    → a ≡ a'
    → b ≡ b'
    → c ≡ c'
    → d ≡ d'
    → with_iterators a b c d r ≡ with_iterators a' b' c' d' r
same_iterators r a b c d a' b' c' d' p q s t = cc

-- A start that is 32-bit is its own wrap.
at_start : (c t : ℕ) → c < 2 ^ 32 → c ≡ u32 (c + 0 * t)
at_start c t h = omega arith

advance-lt : (w slope c : ℕ) → c < 2 ^ 32 → ltb (advance w slope c) (2 ^ 32) ≡ true
advance-lt w slope c h = ground arith

add_slopes-is_iterating : (r : Rex3) → is_iterating r ≡ true → is_iterating (add_slopes r) ≡ true
unfolding add_slopes
add_slopes-is_iterating r h =
    simp
      (
        advance-lt 24 r.slope_red r.curr_red (ground arith),
        advance-lt 20 r.slope_green r.curr_green (ground arith),
        advance-lt 20 r.slope_blue r.curr_blue (ground arith),
        advance-lt 20 r.slope_alpha r.curr_alpha (ground arith),
      )
      refl

pub shade_times-eq-shaded :
    (n : ℕ) (r : Rex3)
    → is_set r.draw_mode0 21 ≡ false
    → is_iterating r ≡ true
    → shade_times n r ≡ shaded n r
unfolding with_iterators add_slopes
shade_times-eq-shaded zero r e h =
    same_iterators r _ _ _ _ _ _ _ _ (at_start r.curr_red _ (ground arith))
      (at_start r.curr_green _ (ground arith)) (at_start r.curr_blue _ (ground arith))
      (at_start r.curr_alpha _ (ground arith))
shade_times-eq-shaded (suc n) r e h =
    ap (shade_times n) (unclamped r e)
    ∙ shade_times-eq-shaded n (add_slopes r) e (add_slopes-is_iterating r h)
    ∙ same_iterators r _ _ _ _ _ _ _ _ (advance-again 24 r.slope_red r.curr_red n)
        (advance-again 20 r.slope_green r.curr_green n)
        (advance-again 20 r.slope_blue r.curr_blue n)
        (advance-again 20 r.slope_alpha r.curr_alpha n)

-- Lane k of a row that the span kernel shades has the colour of the path by pixels: in the
-- dithered RGB mode, without the clamp of the iterators, with iterators of 32 bits, the colour
-- at x + k after shading k + 1 pixels one after the other is the one that the kernel computes
-- from the start of the row by one multiplication.
pub rgb_color-eq-lane_colour :
    (k x y : ℕ) (r : Rex3)
    → is_set r.draw_mode0 21 ≡ false
    → is_set r.draw_mode1 15 ≡ true
    → is_set r.draw_mode1 16 ≡ true
    → is_iterating r ≡ true
    → rgb_color (x + k) y (shade_times (k + 1) r) ≡ lane_colour k x y r
unfolding rgb_from lane_colour
rgb_color-eq-lane_colour k x y r c m d h =
    ap (λ q. rgb_color (x + k) y q) (shade_times-eq-shaded (k + 1) r c h)
    ∙ simp (m, d) (sym (dither_lane-same r.plane_depth _ _ _ _ _))
