-- ===== src/Mc/Eeprom.antt =====
-- The serial EEPROM of sgi_mc: how many bits it takes.
use interp_mips.Prelude.{
  ℕ, suc, ◌+◌, ◌*◌, ◌<◌, ◌≤◌, ◌≡◌, refl, arith, Bool, true, ◌&&◌, if◌then◌else◌, ◌==◌, ltb, bits,
  u8, u32, update, List, [], ◌∷◌, Option, none, some, Bool-cases, inl, inr, ◌∙◌,
}
use interp_mips.Cpu.{Outcome, ok, exits, aborts, host_fault}
use interp_mips.Mc.Registers.{SgiMc}
use interp_mips.Mc.Access.{clock_bit}

-- The bits that the EEPROM has taken.
abbrev pub taken : SgiMc → ℕ
taken c = 8 * c.cbyte + c.nbits

-- A write that clocks a bit in.
abbrev pub clocks : ℕ → Bool
clocks x = bits x 1 2 == 3

abbrev pub all_clock : List ℕ → Bool
all_clock [] = true
all_clock (x ∷ xs) = clocks x && all_clock xs

abbrev pub length : List ℕ → ℕ
length [] = 0
length (_ ∷ xs) = suc (length xs)

abbrev pub and_then : Outcome SgiMc → (SgiMc → Outcome SgiMc) → Outcome SgiMc
and_then (ok c) f = f c
and_then exits f = exits
and_then aborts f = aborts
and_then host_fault f = host_fault

-- A series of writes of the register.
abbrev pub clock_all : List ℕ → SgiMc → Outcome SgiMc
clock_all [] c = ok c
clock_all (x ∷ xs) c = and_then (clock_bit c x) (clock_all xs)

-- The bits taken at the end, if no write was out of bounds.
abbrev pub taken_by : Outcome SgiMc → Option ℕ
taken_by (ok c) = some (taken c)
taken_by exits = none
taken_by aborts = none
taken_by host_fault = none

-- The bits of a byte are counted, and the bytes within `eerom` or just past it.
pub record IsCounted (c : SgiMc) : Type 0 where
  pub bit : c.nbits < 8
  pub in_bounds : c.cbyte ≤ 256

clock_bit-IsCounted :
    (c : SgiMc) (x : ℕ)
    → clocks x ≡ true
    → IsCounted c
    → taken c < 2055
    → (d : SgiMc) × (clock_bit c x ≡ ok d) × IsCounted d × (taken d ≡ suc (taken c))
unfolding clock_bit
clock_bit-IsCounted c x k v h =
    let b = u8 (c.byte * 2 + bits x 3 1) in
    elim (Bool-cases (u32 (c.nbits + 1) == 8)) [
      | inl e ↦
          let below : ltb c.cbyte 256 ≡ true = ground arith in
          (
            record c {
              eeprom_ctrl = x;
              eerom = update c.eerom c.cbyte b;
              cbyte = u32 (c.cbyte + 1);
              nbits = 0;
              byte = 0;
            },
            rw (k, e, below) refl,
            record { bit = omega arith; in_bounds = ground arith },
            ground arith,
          )
      | inr e ↦ (
        record c { eeprom_ctrl = x; byte = b; nbits = u32 (c.nbits + 1) },
        rw (k, e) refl,
        record { bit = ground arith; in_bounds = v.in_bounds },
        ground arith,
      )
    ]

clock_bit_faults :
    (c : SgiMc) (x : ℕ)
    → clocks x ≡ true
    → IsCounted c
    → 2055 ≤ taken c
    → clock_bit c x ≡ host_fault
unfolding clock_bit
clock_bit_faults c x k v h = ground arith

clock_all_faults : (xs : List ℕ) → taken_by (and_then host_fault (clock_all xs)) ≡ none
clock_all_faults xs = refl

-- For a series of writes of the EEPROM register that each clock a bit in, from a state that has
-- taken fewer than 2056 bits: no write is out of the bounds of the 256 bytes exactly where the
-- total stays below 2056 bits, and then that is the number of bits taken.
pub clock_all_within :
    (xs : List ℕ) (c : SgiMc)
    → IsCounted c
    → taken c < 2056
    → all_clock xs ≡ true
    → taken_by (clock_all xs c)
      ≡ (if ltb (taken c + length xs) 2056 then some (taken c + length xs) else none)
clock_all_within [] c v h k = ground arith
clock_all_within (x ∷ xs) c v h k = elim (Bool-cases (ltb (taken c) 2055)) [
  | inl e ↦
      let (d, r, u, t) = clock_bit-IsCounted c x (ground arith) v (ground arith) in
      rw r (clock_all_within xs d u (ground arith) (ground arith) ∙ ground (arith, t))
  | inr e ↦ rw (clock_bit_faults c x (ground arith) v (ground arith)) (ground arith)
]
