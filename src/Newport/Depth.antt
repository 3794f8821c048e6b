-- ===== src/Newport/Depth.antt =====
-- The colours of the planes, `sgi_newport::convert_depth` (sgi_newport.cc). A depth is 0, 1, 2 or 3,
-- for 4, 8, 12 or 24 bits. Each `|` joins fields that share no bit, and is their sum.
use interp_mips.Prelude.{
  ℕ, zero, suc, ◌&&◌, ◌+◌, ◌*◌, ◌^◌, ◌<◌, ◌≤◌, ◌≡◌, refl, arith, Bool, true, if◌then◌else◌, ◌==◌,
  bits, ◌<<<◌,
}

pub record Rgb : Type 0 where
  pub r : ℕ
  pub g : ℕ
  pub b : ℕ

-- The 8-bit channels of a colour.
abbrev pub unpack : ℕ → ℕ → Rgb
unpack c from =
    if from == 0
    then record {
      r = 0xff * bits c 0 1;
      g = 0xaa * bits c 2 1 + 0x55 * bits c 1 1;
      b = 0xff * bits c 3 1;
    }
    else if from == 1
    then record {
      r = 0x92 * bits c 2 1 + 0x49 * bits c 1 1 + 0x24 * bits c 0 1;
      g = 0x92 * bits c 5 1 + 0x49 * bits c 4 1 + 0x24 * bits c 3 1;
      b = 0xaa * bits c 7 1 + 0x55 * bits c 6 1;
    }
    else if from == 2
    then record { r = 0x11 * bits c 0 4; g = 0x11 * bits c 4 4; b = 0x11 * bits c 8 4 }
    else record { r = bits c 0 8; g = bits c 8 8; b = bits c 16 8 }

abbrev pub repack : Rgb → ℕ → ℕ
repack p to =
    if to == 0
    then bits p.b 7 1 <<< 3 + bits p.g 6 2 <<< 1 + bits p.r 7 1
    else if to == 1
    then bits p.b 6 2 <<< 6 + bits p.g 5 3 <<< 3 + bits p.r 5 3
    else if to == 2
    then bits p.b 4 4 <<< 8 + bits p.g 4 4 <<< 4 + bits p.r 4 4
    else p.b <<< 16 + p.g <<< 8 + p.r

-- The channels are 8-bit as unpacked, so that `r &= 0xff` changes nothing.
unfoldable pub convert_depth : ℕ → ℕ → ℕ → ℕ
convert_depth c from to = if from == to then c else repack (unpack c from) to

abbrev pub width : ℕ → ℕ
width d = if d == 0 then 4 else if d == 1 then 8 else if d == 2 then 12 else 24

-- Whether colours below n come back from each deeper plane.
abbrev comes_back : ℕ → ℕ → ℕ → Bool
comes_back from to zero = true
comes_back from to (suc c) =
    (convert_depth (convert_depth c from to) to from == c) && comes_back from to c

colour_table : (from to : ℕ) → from < to → to ≤ 3 → comes_back from to (2 ^ width from) ≡ true
unfolding convert_depth
colour_table zero (suc zero) h l = refl
colour_table zero (suc (suc zero)) h l = refl
colour_table zero (suc (suc (suc zero))) h l = refl
colour_table (suc zero) (suc (suc zero)) h l = refl
colour_table (suc zero) (suc (suc (suc zero))) h l = refl
colour_table (suc (suc zero)) (suc (suc (suc zero))) h l = refl
colour_table from (suc (suc (suc (suc to)))) h l = absurd (omega arith)
colour_table from zero h l = absurd (omega arith)
colour_table (suc from) (suc zero) h l = absurd (omega arith)
colour_table (suc (suc from)) (suc (suc zero)) h l = absurd (omega arith)
colour_table (suc (suc (suc from))) (suc (suc (suc zero))) h l = absurd (omega arith)

comes_back-at :
    (from to n c : ℕ)
    → comes_back from to n ≡ true
    → c < n
    → convert_depth (convert_depth c from to) to from ≡ c
comes_back-at from to zero c h l = absurd (omega arith)
comes_back-at from to (suc n) c h l = ground (arith, comes_back-at from to n c)

pub convert_depth-widened :
    (from to c : ℕ)
    → from < to
    → to ≤ 3
    → c < 2 ^ width from
    → convert_depth (convert_depth c from to) to from ≡ c
convert_depth-widened from to c h l u = comes_back-at from to _ c (colour_table from to h l) u
