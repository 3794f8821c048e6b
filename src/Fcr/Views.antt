-- ===== src/Fcr/Views.antt =====
-- The two views of the condition codes, FCSR and FCCR.
use interp_mips.Prelude.{
  ℕ, zero, suc, ◌%◌, ◌<◌, ◌≡◌, arith, Bool, if◌then◌else◌, bits, u32, set_bit, clear_bit, ◌>>>◌,
  update,
}
use interp_mips.Cpu.{State}
use interp_mips.Exception.{cp1_cr31}
use interp_mips.Fcr.{
  cp1_cr25, fcc_bit, get_condition_code, set_condition_code, fccr_of, fcsr_of, fcc_mirror_to_fccr,
  fcc_mirror_from_fccr, ctc1, fcr_index, field_fs, field_rt,
}

fccr_of-bit : (f c : ℕ) → c < 8 → bits (fccr_of 7 f) c 1 ≡ f >>> fcc_bit c % 2
unfolding fccr_of
fccr_of-bit f zero h = grind arith
fccr_of-bit f (suc zero) h = grind arith
fccr_of-bit f (suc (suc zero)) h = grind arith
fccr_of-bit f (suc (suc (suc zero))) h = grind arith
fccr_of-bit f (suc (suc (suc (suc zero)))) h = grind arith
fccr_of-bit f (suc (suc (suc (suc (suc zero))))) h = grind arith
fccr_of-bit f (suc (suc (suc (suc (suc (suc zero)))))) h = grind arith
fccr_of-bit f (suc (suc (suc (suc (suc (suc (suc zero))))))) h = grind arith
fccr_of-bit f (suc (suc (suc (suc (suc (suc (suc (suc c)))))))) h = omega arith

fcsr_of-bit : (v f c : ℕ) → c < 8 → fcsr_of 7 v f >>> fcc_bit c % 2 ≡ bits v c 1
unfolding fcsr_of
fcsr_of-bit v f zero h = grind arith
fcsr_of-bit v f (suc zero) h = grind arith
fcsr_of-bit v f (suc (suc zero)) h = grind arith
fcsr_of-bit v f (suc (suc (suc zero))) h = grind arith
fcsr_of-bit v f (suc (suc (suc (suc zero)))) h = grind arith
fcsr_of-bit v f (suc (suc (suc (suc (suc zero))))) h = grind arith
fcsr_of-bit v f (suc (suc (suc (suc (suc (suc zero)))))) h = grind arith
fcsr_of-bit v f (suc (suc (suc (suc (suc (suc (suc zero))))))) h = grind arith
fcsr_of-bit v f (suc (suc (suc (suc (suc (suc (suc (suc c)))))))) h = omega arith

-- FCCR is the view of the condition codes of FCSR.
abbrev pub IsMirrored : State → Type 0
IsMirrored s = (k : ℕ) → k < 8 → bits (s.fcr1 cp1_cr25) k 1 ≡ get_condition_code s k

to_fccr-IsMirrored : (s : State) → IsMirrored (fcc_mirror_to_fccr s)
unfolding fcc_mirror_to_fccr get_condition_code
to_fccr-IsMirrored s k h = fccr_of-bit (s.fcr1 cp1_cr31) k h

from_fccr-IsMirrored : (s : State) → IsMirrored (fcc_mirror_from_fccr s)
unfolding fcc_mirror_from_fccr get_condition_code
from_fccr-IsMirrored s k h = ground (arith, fcsr_of-bit (s.fcr1 cp1_cr25) (s.fcr1 cp1_cr31) k h)

-- A compare sets one condition code, and both views show it.
pub record IsConditionSet (v : Bool) (c : ℕ) (t : State) : Type 0 where
  pub mirrored : IsMirrored t
  pub code : get_condition_code t c ≡ (if v then 1 else 0)

set_code :
    (s : State) (v : Bool) (c : ℕ)
    → c < 8
    → get_condition_code (set_condition_code s v c) c ≡ (if v then 1 else 0)
unfolding set_condition_code fcc_mirror_to_fccr get_condition_code
set_code s v zero h = grind arith
set_code s v (suc zero) h = grind arith
set_code s v (suc (suc zero)) h = grind arith
set_code s v (suc (suc (suc zero))) h = grind arith
set_code s v (suc (suc (suc (suc zero)))) h = grind arith
set_code s v (suc (suc (suc (suc (suc zero))))) h = grind arith
set_code s v (suc (suc (suc (suc (suc (suc zero)))))) h = grind arith
set_code s v (suc (suc (suc (suc (suc (suc (suc zero))))))) h = grind arith
set_code s v (suc (suc (suc (suc (suc (suc (suc (suc c)))))))) h = omega arith

-- After a compare into one of the eight condition codes, FCSR holds the result in it and FCCR
-- shows the eight codes of FCSR, whatever FCCR held before.
pub set_condition_code-IsConditionSet :
    (s : State) (v : Bool) (c : ℕ) → c < 8 → IsConditionSet v c (set_condition_code s v c)
unfolding set_condition_code
set_condition_code-IsConditionSet s v c h = record {
  mirrored = to_fccr-IsMirrored (record s {
    fcr1 = update s.fcr1 cp1_cr31 (
        if v
        then set_bit (s.fcr1 cp1_cr31) (fcc_bit c)
        else clear_bit (s.fcr1 cp1_cr31) (fcc_bit c));
  });
  code = set_code s v c h;
}

-- Where FCCR shows the eight condition codes of FCSR, it still does after a CTC1 to FCSR, FCCR
-- or another known control register; the number of an unknown register, which the code takes
-- for FCSR, is excluded.
pub ctc1-IsMirrored :
    (inst : ℕ) (s : State)
    → (fcr_index (field_fs inst) ≡ cp1_cr31 → field_fs inst ≡ 31)
    → IsMirrored s
    → IsMirrored (ctc1 inst s)
unfolding ctc1 get_condition_code
ctc1-IsMirrored inst s h m k b =
    let t = record s {
      fcr1 = update s.fcr1 (fcr_index (field_fs inst)) (u32 (s.gpr (field_rt inst)));
    } in
    ground (arith, h, m k b, to_fccr-IsMirrored t k b, from_fccr-IsMirrored t k b)
