-- ===== src/Prelude/Bits.antt =====
-- Laws of `&` and `|`, by the lowest digit and by a cut at a bit position.
use Prim.Native.Nat.{ℕ, zero, suc, ◌+◌, ◌*◌, ◌/◌, ◌%◌, ◌^◌, ◌≤◌, ◌<◌, ◌-◌, min, max}
use Prim.Native.Nat.{bit_and, bit_or, bit_xor, digits, bitwise, differ}
use Prim.Native.Nat.{bit_and-bitwise, bit_or-bitwise, bit_xor-bitwise}
use mathlib.Core.Logic.{◌⊎◌, inl, inr}
use mathlib.Core.Path.{◌≡◌, refl, sym, ap, ◌∙◌}
use native.Mathlib.Nat.{le_refl, pow-suc, one-le-pow, mod-lt, div-div-eq-div-mul}
use native.Mathlib.Omega.{arith}

-- A digit to go that the first number does not need changes nothing.
spare_digit :
    (rest : ℕ → ℕ) (op : ℕ → ℕ → ℕ) (count x y : ℕ)
    → x ≤ count
    → digits rest op (suc count) x y ≡ digits rest op count x y
spare_digit rest op zero (suc x) y le = absurd (omega arith)
spare_digit rest op zero zero y le = refl
spare_digit rest op (suc count) zero y le = refl
spare_digit rest op (suc count) (suc x) y le =
    ap (λ high. high * 2 + op (suc x % 2) (y % 2))
      (spare_digit rest op count (suc x / 2) (y / 2) (omega arith))

needed_digits :
    (rest : ℕ → ℕ) (op : ℕ → ℕ → ℕ) (count x y : ℕ)
    → x ≤ count
    → digits rest op count x y ≡ bitwise rest op x y
needed_digits rest op zero zero y le = refl
needed_digits rest op zero (suc x) y le = absurd (omega arith)
needed_digits rest op (suc count) x y le = elim (le_cases x count le) [
  | inl all ↦ ap (λ c. digits rest op c x y) (sym all)
  | inr fewer ↦ spare_digit rest op count x y fewer ∙ needed_digits rest op count x y fewer
]
  where
    le_cases : (x count : ℕ) → x ≤ suc count → (x ≡ suc count) ⊎ (x ≤ count)
    le_cases x count le = ground arith

-- The lowest digit and the others of a digit-wise operation, given that its value for 0 splits so.
lowest_digit :
    (rest : ℕ → ℕ) (op : ℕ → ℕ → ℕ) (x y : ℕ)
    → bitwise rest op 0 y ≡ bitwise rest op 0 (y / 2) * 2 + op 0 (y % 2)
    → bitwise rest op x y ≡ bitwise rest op (x / 2) (y / 2) * 2 + op (x % 2) (y % 2)
lowest_digit rest op zero y base = base
lowest_digit rest op (suc x) y base =
    ap (λ high. high * 2 + op (suc x % 2) (y % 2))
      (needed_digits rest op x (suc x / 2) (y / 2) (omega arith))

pub bit_and_step : (x y : ℕ) → bit_and x y ≡ bit_and (x / 2) (y / 2) * 2 + min (x % 2) (y % 2)
bit_and_step x y = simp bit_and-bitwise (lowest_digit (λ _. 0) min x y (omega arith))

pub bit_or_step : (x y : ℕ) → bit_or x y ≡ bit_or (x / 2) (y / 2) * 2 + max (x % 2) (y % 2)
bit_or_step x y = simp bit_or-bitwise (lowest_digit (λ rest. rest) max x y (omega arith))

differ_digits : (a b : ℕ) → a < 2 → b < 2 → differ a b ≡ (a + b) % 2
differ_digits zero b h l = omega arith
differ_digits (suc zero) zero h l = refl
differ_digits (suc zero) (suc zero) h l = refl
differ_digits (suc zero) (suc (suc b)) h l = absurd (omega arith)
differ_digits (suc (suc a)) b h l = absurd (omega arith)

pub bit_xor_step : (x y : ℕ) → bit_xor x y ≡ bit_xor (x / 2) (y / 2) * 2 + (x + y) % 2
bit_xor_step x y = omega (
  arith,
  bit_xor-bitwise x y,
  bit_xor-bitwise (x / 2) (y / 2),
  lowest_digit (λ b. b) differ x y (omega arith),
  differ_digits (x % 2) (y % 2) (omega arith) (omega arith),
)

double_pow : (q k : ℕ) → q * 2 ^ suc k ≡ 2 * (q * 2 ^ k)
double_pow q k = omega (arith, ap (λ (t : ℕ). q * t) (pow-suc 2 k))

half_cut : (k a r : ℕ) → (a * 2 ^ suc k + r) / 2 ≡ a * 2 ^ k + r / 2
half_cut k a r = omega (arith, double_pow a k)

low_cut : (k a r : ℕ) → (a * 2 ^ suc k + r) % 2 ≡ r % 2
low_cut k a r = omega (arith, double_pow a k)

half-lt : (k r : ℕ) → r < 2 ^ suc k → r / 2 < 2 ^ k
half-lt k r h = omega (arith, pow-suc 2 k)

pub bit_and_cut :
    (k a b r t : ℕ)
    → r < 2 ^ k
    → t < 2 ^ k
    → bit_and (a * 2 ^ k + r) (b * 2 ^ k + t) ≡ bit_and a b * 2 ^ k + bit_and r t
bit_and_cut zero a b zero zero p q = ground arith
bit_and_cut zero a b zero (suc t) p q = absurd (omega arith)
bit_and_cut zero a b (suc r) t p q = absurd (omega arith)
bit_and_cut (suc k) a b r t p q = ground (
  arith,
  bit_and_step (a * 2 ^ suc k + r) (b * 2 ^ suc k + t),
  half_cut k a r,
  half_cut k b t,
  low_cut k a r,
  low_cut k b t,
  bit_and_step r t,
  double_pow (bit_and a b) k,
  bit_and_cut k a b (r / 2) (t / 2) (half-lt k r p) (half-lt k t q),
)

pub bit_or_cut :
    (k a b r t : ℕ)
    → r < 2 ^ k
    → t < 2 ^ k
    → bit_or (a * 2 ^ k + r) (b * 2 ^ k + t) ≡ bit_or a b * 2 ^ k + bit_or r t
bit_or_cut zero a b zero zero p q = ground arith
bit_or_cut zero a b zero (suc t) p q = absurd (omega arith)
bit_or_cut zero a b (suc r) t p q = absurd (omega arith)
bit_or_cut (suc k) a b r t p q = ground (
  arith,
  bit_or_step (a * 2 ^ suc k + r) (b * 2 ^ suc k + t),
  half_cut k a r,
  half_cut k b t,
  low_cut k a r,
  low_cut k b t,
  bit_or_step r t,
  double_pow (bit_or a b) k,
  bit_or_cut k a b (r / 2) (t / 2) (half-lt k r p) (half-lt k t q),
)

module _ where
  -- x & 0 and x | 0 and their mirror images.
  and_zero_fuel : (n a : ℕ) → a ≤ n → bit_and a 0 ≡ 0
  and_zero_fuel n zero h = refl
  and_zero_fuel zero (suc a) h = absurd (omega arith)
  and_zero_fuel (suc n) (suc a) h =
      omega (arith, bit_and_step (suc a) 0, and_zero_fuel n (suc a / 2) (omega arith))

  or_zero_fuel : (n a : ℕ) → a ≤ n → bit_or a 0 ≡ a
  or_zero_fuel n zero h = refl
  or_zero_fuel zero (suc a) h = absurd (omega arith)
  or_zero_fuel (suc n) (suc a) h =
      omega (arith, bit_or_step (suc a) 0, or_zero_fuel n (suc a / 2) (omega arith))

pub bit_and-zero : (a : ℕ) → bit_and a 0 ≡ 0
bit_and-zero a = and_zero_fuel a a (le_refl _)

pub bit_or-zero : (a : ℕ) → bit_or a 0 ≡ a
bit_or-zero a = or_zero_fuel a a (le_refl _)

pub zero-bit_or : (b : ℕ) → bit_or 0 b ≡ b
zero-bit_or b = bit_or-bitwise 0 b

-- `(q << k) | r` is a sum when `r` fits `k` bits.
pub bit_or_fields : (k q r : ℕ) → r < 2 ^ k → bit_or (q * 2 ^ k) r ≡ q * 2 ^ k + r
bit_or_fields k q r h =
    ground
      (arith, bit_or_cut k q 0 0 r (one-le-pow k 2 (omega arith)) h, bit_or-zero q, zero-bit_or r)

-- A mask with `k` zeroes at the low end reads only what stands above them.
pub bit_and_high :
    (k a b r : ℕ) → r < 2 ^ k → bit_and (a * 2 ^ k + r) (b * 2 ^ k) ≡ bit_and a b * 2 ^ k
bit_and_high k a b r h =
    ground (arith, bit_and_cut k a b r 0 h (one-le-pow k 2 (omega arith)), bit_and-zero r)

-- A mask of `k` ones leaves a number of `k` bits alone.
pub bit_and_ones : (k r : ℕ) → r < 2 ^ k → bit_and r (2 ^ k - 1) ≡ r
bit_and_ones zero zero h = refl
bit_and_ones zero (suc r) h = absurd (omega arith)
bit_and_ones (suc k) r h = ground (
  arith,
  bit_and_step r (2 ^ suc k - 1),
  pow-suc 2 k,
  one-le-pow k 2 (omega arith),
  bit_and_ones k (r / 2) (half-lt k r h),
)

-- A mask whose `k` low bits are zero is its high part, moved up.
pub bit_and_high_mask : (k x m : ℕ) → bit_and x (m * 2 ^ k) ≡ bit_and (x / 2 ^ k) m * 2 ^ k
bit_and_high_mask k x m =
    ap (λ y. bit_and y (m * 2 ^ k)) (sym (split x (2 ^ k)))
    ∙ bit_and_high k (x / 2 ^ k) m (x % 2 ^ k) (mod-lt x (one-le-pow k 2 (omega arith)))
  where
    split : (x d : ℕ) → x / d * d + x % d ≡ x
    split x d = grind arith

-- `x & m` fits the bits of `m`.
pub bit_and-lt : (k x m : ℕ) → m < 2 ^ k → bit_and x m < 2 ^ k
bit_and-lt zero x zero h = omega (arith, bit_and-zero x)
bit_and-lt zero x (suc m) h = absurd (omega arith)
bit_and-lt (suc k) x m h =
    omega (arith, pow-suc 2 k, bit_and_step x m, bit_and-lt k (x / 2) (m / 2) (half-lt k m h))

-- A bit that is set in both is set in `x & y`.
pub bit_and_both : (k x y : ℕ) → x / 2 ^ k % 2 ≡ 1 → y / 2 ^ k % 2 ≡ 1 → bit_and x y / 2 ^ k % 2 ≡ 1
bit_and_both zero x y p q = grind (arith, bit_and_step x y)
bit_and_both (suc k) x y p q =
    ap (λ z. z % 2) (above k (bit_and x y))
    ∙ ap (λ z. z / 2 ^ k % 2) (half_and x y)
    ∙ bit_and_both k (x / 2) (y / 2) (ap (λ z. z % 2) (sym (above k x)) ∙ p)
        (ap (λ z. z % 2) (sym (above k y)) ∙ q)
  where
    above : (k z : ℕ) → z / 2 ^ suc k ≡ z / 2 / 2 ^ k
    above k z = ap (λ d. z / d) (omega (arith, pow-suc 2 k)) ∙ sym (div-div-eq-div-mul z 2 (2 ^ k))

    half_and : (x y : ℕ) → bit_and x y / 2 ≡ bit_and (x / 2) (y / 2)
    half_and x y = omega (arith, bit_and_step x y)
