-- ===== src/Alu/Divide.antt =====
-- Division and multiplication of interpret.cc in opcode 0: HI, LO, and the divisions that trap the
-- host.
use interp_mips.Prelude.{
  ℕ, ◌+◌, ◌-◌, ◌*◌, ◌/◌, ◌%◌, ◌^◌, ◌<◌, ◌≤◌, ◌≡◌, ◌≢◌, ◌↔◌, ◌⊎◌, arith, u32, bits, Option, none,
  some, sext32,
}
use native.Mathlib.Nat.{div-add-mod'}
use interp_mips.Cpu.{State, Outcome, ok, host_fault}
use interp_mips.Alu.Write.{set_hi_lo}
use interp_mips.Alu.HiLo.{multu, divu, ddiv, exec_hi_lo}
use interp_mips.Alu.Special.{exec_special, shift_value, logic_value, by_value, by_hi_lo}

-- The operands that trap the host: DIVU by a register whose low word is zero and whose high word
-- is not, and DDIV of the least integer by -1.
abbrev pub TrapsHost : ℕ → ℕ → ℕ → Type 0
TrapsHost funct rs rt =
    ((funct ≡ 0x1B) × (rt ≢ 0) × (u32 rt ≡ 0))
    ⊎ ((funct ≡ 0x1E) × (rs ≡ 2 ^ 63) × (rt ≡ 2 ^ 64 - 1))

product-lt : (a b m n : ℕ) → a < m → b < n → a * b < m * n
product-lt a b m n p q = grind arith

u32-sext32 : (x : ℕ) → u32 (sext32 x) ≡ u32 x
u32-sext32 x = ground arith

-- After MULTU the low words of HI and LO are the high and the low word of the product of the
-- low words of the operands.
pub multu_product :
    (s : State) (rs rt : ℕ)
    → u32 (multu s rs rt).hi * 2 ^ 32 + u32 (multu s rs rt).lo ≡ u32 rs * u32 rt
unfolding multu
multu_product s rs rt = omega (
  arith,
  u32-sext32 (u32 rs * u32 rt),
  u32-sext32 ((u32 rs * u32 rt) / 2 ^ 32),
  product-lt (u32 rs) (u32 rt) (2 ^ 32) (2 ^ 32) (omega arith) (omega arith),
)

divu-host_fault : (s : State) (rs rt : ℕ) → (divu s rs rt ≡ host_fault) ↔ ((rt ≢ 0) × (u32 rt ≡ 0))
unfolding divu
divu-host_fault s rs rt = ground arith

ddiv-host_fault :
    (s : State) (rs rt : ℕ) → (ddiv s rs rt ≡ host_fault) ↔ ((rs ≡ 2 ^ 63) × (rt ≡ 2 ^ 64 - 1))
unfolding ddiv
ddiv-host_fault s rs rt = ground arith

exec_hi_lo-host_fault :
    (s : State) (funct rs rt rd : ℕ)
    → (exec_hi_lo funct s rs rt rd ≡ some host_fault) ↔ TrapsHost funct rs rt
unfolding exec_hi_lo
exec_hi_lo-host_fault s funct rs rt rd =
    ground (arith, divu-host_fault s rs rt, ddiv-host_fault s rs rt)

shift_value-none : (funct rs rt sa : ℕ) → TrapsHost funct rs rt → shift_value funct rs rt sa ≡ none
unfolding shift_value
shift_value-none funct rs rt sa h = ground arith

logic_value-none :
    (funct rs rt rd old : ℕ) → TrapsHost funct rs rt → logic_value funct rs rt rd old ≡ none
unfolding logic_value
logic_value-none funct rs rt rd old h = ground arith

by_value-host_fault :
    (s : State) (rd : ℕ) (o : Option ℕ) (r : Outcome State)
    → (by_value s rd o r ≡ host_fault) ↔ ((o ≡ none) × (r ≡ host_fault))
by_value-host_fault s rd (some v) r = ground arith
by_value-host_fault s rd none r = ground arith

by_hi_lo-host_fault :
    (o : Option (Outcome State)) (t : State)
    → (by_hi_lo o (ok t) ≡ host_fault) ↔ (o ≡ some host_fault)
by_hi_lo-host_fault (some r) t = ground arith
by_hi_lo-host_fault none t = ground arith

-- An instruction of opcode 0 traps the host exactly where it is a DIVU by a register whose low
-- word is zero and whose value is not, or a DDIV of the least integer by -1.
pub exec_special-host_fault :
    (inst : ℕ) (s : State)
    → (exec_special inst s ≡ host_fault)
      ↔ TrapsHost (inst % 64) (s.gpr (bits inst 21 5)) (s.gpr (bits inst 16 5))
unfolding exec_special
exec_special-host_fault inst s =
    let funct = inst % 64 in
    let rs = s.gpr (bits inst 21 5) in
    let rt = s.gpr (bits inst 16 5) in
    let rd = bits inst 11 5 in
    ground (
      arith,
      by_value-host_fault s rd (shift_value funct rs rt (bits inst 6 5)) _,
      by_value-host_fault s rd (logic_value funct rs rt rd (s.gpr rd)) _,
      by_hi_lo-host_fault (exec_hi_lo funct s rs rt rd) _,
      exec_hi_lo-host_fault s funct rs rt rd,
      shift_value-none funct rs rt (bits inst 6 5),
      logic_value-none funct rs rt rd (s.gpr rd),
    )

quotient-le : (x d : ℕ) → x / d ≤ x
quotient-le x d = grind arith

-- What a division leaves in LO and HI.
pub record IsDivided (rs rt : ℕ) (t : State) : Type 0 where
  pub quotient : u32 rs ≡ u32 t.lo * u32 rt + u32 t.hi
  pub remainder : u32 t.hi < u32 rt
  pub hi_word : t.hi ≡ sext32 t.hi
  pub lo_word : t.lo ≡ sext32 t.lo

abbrev divided : State → ℕ → ℕ → State
divided s rs rt = set_hi_lo s (sext32 (u32 rs % u32 rt)) (sext32 (u32 rs / u32 rt))

divu-eq-ok : (s : State) (rs rt : ℕ) → u32 rt ≢ 0 → divu s rs rt ≡ ok (divided s rs rt)
unfolding divu
divu-eq-ok s rs rt ne = ground arith

sext32_twice : (x : ℕ) → sext32 x ≡ sext32 (sext32 x)
sext32_twice x = ground arith

divided-IsDivided : (s : State) (rs rt : ℕ) → u32 rt ≢ 0 → IsDivided rs rt (divided s rs rt)
unfolding set_hi_lo
divided-IsDivided s rs rt ne = record {
  quotient = grind (
    arith,
    u32-sext32 (u32 rs / u32 rt),
    u32-sext32 (u32 rs % u32 rt),
    div-add-mod' (u32 rs) (u32 rt),
    quotient-le (u32 rs) (u32 rt),
  );
  remainder = grind (arith, u32-sext32 (u32 rs % u32 rt), quotient-le (u32 rs) (u32 rt));
  hi_word = sext32_twice (u32 rs % u32 rt);
  lo_word = sext32_twice (u32 rs / u32 rt);
}

-- A DIVU by a register whose low word is not zero ends, its HI and LO are sign-extended words,
-- and the low words of LO and HI are the quotient and the remainder of the low words of its
-- operands.
pub divu-IsDivided :
    (s : State) (rs rt : ℕ) → u32 rt ≢ 0 → (t : State) × (divu s rs rt ≡ ok t) × IsDivided rs rt t
divu-IsDivided s rs rt ne = (divided s rs rt, divu-eq-ok s rs rt ne, divided-IsDivided s rs rt ne)
