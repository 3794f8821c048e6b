-- ===== src/Newport/Bit.antt =====
-- 32-bit words bit by bit, and the order of 16-bit patterns as int16_t.
use interp_mips.Prelude.{
  ℕ, zero, suc, ◌+◌, ◌-◌, ◌*◌, ◌/◌, ◌%◌, ◌^◌, ◌<◌, ◌≡◌, sym, ap, ◌∙◌, arith, bit_and, bit_or,
  bit_xor, Bool, ltb, is_set, bit_and_step, bit_xor_step, if◌then◌else◌, bit_or_step, not, ◌&&◌,
  ◌||◌, ◌==◌,
}
use native.Mathlib.Nat.{div-div-eq-div-mul, mod-add-div, pow-suc}

-- ~x in 32 bits.
abbrev pub not32 : ℕ → ℕ
not32 x = 2 ^ 32 - 1 - x % 2 ^ 32

-- a < b for the patterns of two int16_t.
abbrev pub slt16 : ℕ → ℕ → Bool
slt16 a b = ltb ((a + 2 ^ 15) % 2 ^ 16) ((b + 2 ^ 15) % 2 ^ 16)

-- Bit k of a number, from the lowest up.
abbrev pub bit_at : ℕ → ℕ → Bool
bit_at x zero = x % 2 == 1
bit_at x (suc k) = bit_at (x / 2) k

quotient : (w x : ℕ) → x / 2 ^ suc w ≡ x / 2 / 2 ^ w
quotient w x = ap (λ d. x / d) (omega (arith, pow-suc 2 w)) ∙ sym (div-div-eq-div-mul x 2 (2 ^ w))

pub is_set-bit_at : (k x : ℕ) → is_set x k ≡ bit_at x k
is_set-bit_at zero x = grind arith
is_set-bit_at (suc k) x = ap (λ t. t % 2 == 1) (quotient k x) ∙ is_set-bit_at k (x / 2)

pub bit_at-bit_and : (k x y : ℕ) → bit_at (bit_and x y) k ≡ (bit_at x k && bit_at y k)
bit_at-bit_and zero x y = ground (arith, bit_and_step x y)
bit_at-bit_and (suc k) x y =
    ap (λ t. bit_at t k) (omega (arith, bit_and_step x y)) ∙ bit_at-bit_and k (x / 2) (y / 2)

pub bit_at-bit_or : (k x y : ℕ) → bit_at (bit_or x y) k ≡ (bit_at x k || bit_at y k)
bit_at-bit_or zero x y = ground (arith, bit_or_step x y)
bit_at-bit_or (suc k) x y =
    ap (λ t. bit_at t k) (omega (arith, bit_or_step x y)) ∙ bit_at-bit_or k (x / 2) (y / 2)

doubled : (p m q : ℕ) → p ≡ 2 * m → p * q ≡ 2 * (m * q)
doubled p m q e = grind arith

half_pow : (w x : ℕ) → x % 2 ^ suc w / 2 ≡ x / 2 % 2 ^ w
half_pow w x = omega (
  arith,
  mod-add-div x (2 ^ suc w),
  mod-add-div (x / 2) (2 ^ w),
  quotient w x,
  doubled (2 ^ suc w) (2 ^ w) (x / 2 / 2 ^ w) (omega (arith, pow-suc 2 w)),
  ap (λ t. 2 ^ suc w * t) (quotient w x),
)

low_digit : (w x : ℕ) → x % 2 ^ suc w % 2 ≡ x % 2
low_digit w x = omega (
  arith,
  mod-add-div x (2 ^ suc w),
  doubled (2 ^ suc w) (2 ^ w) (x / 2 ^ suc w) (omega (arith, pow-suc 2 w)),
)

pub bit_at-mod : (w k x : ℕ) → k < w → bit_at (x % 2 ^ w) k ≡ bit_at x k
bit_at-mod zero k x h = absurd (omega arith)
bit_at-mod (suc w) zero x h = ap (λ t. t == 1) (low_digit w x)
bit_at-mod (suc w) (suc k) x h =
    ap (λ t. bit_at t k) (half_pow w x) ∙ bit_at-mod w k (x / 2) (omega arith)

pub bit_at-flip : (w k x : ℕ) → k < w → x < 2 ^ w → bit_at (2 ^ w - 1 - x) k ≡ not (bit_at x k)
bit_at-flip zero k x h l = absurd (omega arith)
bit_at-flip (suc w) zero x h l = ground (arith, pow-suc 2 w)
bit_at-flip (suc w) (suc k) x h l =
    ap (λ t. bit_at t k) (omega (arith, pow-suc 2 w))
    ∙ bit_at-flip w k (x / 2) (omega arith) (omega (arith, pow-suc 2 w))

pub bit_at-not32 : (k x : ℕ) → k < 32 → bit_at (not32 x) k ≡ not (bit_at x k)
bit_at-not32 k x h = bit_at-flip 32 k (x % 2 ^ 32) h (omega arith) ∙ ap not (bit_at-mod 32 k x h)

pub bit_at-bit_xor :
    (k x y : ℕ) → bit_at (bit_xor x y) k ≡ (if bit_at x k then not (bit_at y k) else bit_at y k)
bit_at-bit_xor zero x y = ground (arith, bit_xor_step x y)
bit_at-bit_xor (suc k) x y =
    ap (λ t. bit_at t k) (omega (arith, bit_xor_step x y)) ∙ bit_at-bit_xor k (x / 2) (y / 2)
