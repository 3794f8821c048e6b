-- ===== src/Alu/Signs.antt =====
-- The 32-bit shifts of interpret.cc and sign extension.
use interp_mips.Prelude.{
  ℕ, ◌/◌, ◌%◌, ◌^◌, ◌≤◌, ◌≡◌, arith, Bool, true, ◌||◌, ◌==◌, sext32, some, not64, ◌⊎◌, inl, inr,
}
use mathlib.Core.Path.{subst}
use interp_mips.Alu.Special.{shift_value, asr64}

-- The 32-bit shifts and the 32-bit additions.
abbrev pub is_shift32 : ℕ → Bool
is_shift32 funct =
    funct == 0x00
    || funct == 0x02
    || funct == 0x03
    || funct == 0x04
    || funct == 0x06
    || funct == 0x07

abbrev pub is_sum32 : ℕ → Bool
is_sum32 funct = funct == 0x21 || funct == 0x23

sext32-sext32 : (x : ℕ) → sext32 x ≡ sext32 (sext32 x)
sext32-sext32 x = ground arith

quotient-le : (x d : ℕ) → x / d ≤ x
quotient-le x d = grind arith

asr64-sext32 : (x k : ℕ) → asr64 (sext32 x) k ≡ sext32 (asr64 (sext32 x) k)
asr64-sext32 x k =
    ground (arith, quotient-le (sext32 x) (2 ^ k), quotient-le (not64 (sext32 x)) (2 ^ k))

some_word : (x v : ℕ) → some (sext32 x) ≡ some v → v ≡ sext32 v
some_word x v h = ground (arith, sext32-sext32 x)

asr_word : (x k v : ℕ) → some (asr64 (sext32 x) k) ≡ some v → v ≡ sext32 v
asr_word x k v h = ground (arith, asr64-sext32 x k)

-- SLL, SRL, SRA, SLLV, SRLV and SRAV leave a word that is sign-extended to 64 bits.
pub shift_value_word :
    (funct rs rt sa v : ℕ)
    → is_shift32 funct ≡ true
    → shift_value funct rs rt sa ≡ some v
    → v ≡ sext32 v
unfolding shift_value
shift_value_word funct rs rt sa v w h = elim (cases funct w) [
  | inl e ↦ some_word _ v (at e)
  | inr (inl e) ↦ some_word _ v (at e)
  | inr (inr (inl e)) ↦ asr_word rt sa v (at e)
  | inr (inr (inr (inl e))) ↦ some_word _ v (at e)
  | inr (inr (inr (inr (inl e)))) ↦ some_word _ v (at e)
  | inr (inr (inr (inr (inr e)))) ↦ asr_word rt (rs % 32) v (at e)
]
  where
    cases :
        (f : ℕ)
        → is_shift32 f ≡ true
        → (f ≡ 0) ⊎ ((f ≡ 2) ⊎ ((f ≡ 3) ⊎ ((f ≡ 4) ⊎ ((f ≡ 6) ⊎ (f ≡ 7)))))
    cases f w = ground arith

    at : {k : ℕ} → funct ≡ k → shift_value k rs rt sa ≡ some v
    at e = subst (λ f. shift_value f rs rt sa ≡ some v) e h
