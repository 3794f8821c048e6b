-- ===== src/Fcr.antt =====
-- The floating-point control registers and the moves to and from coprocessor 1 of interpret.cc.
-- `fcr1` is the compact array of the control registers. `|=` of disjoint bits is `+`.
pub mod Views
pub mod Moves
use interp_mips.Prelude.{
  ℕ, zero, suc, ◌+◌, ◌-◌, ◌/◌, ◌%◌, ◌*◌, ◌^◌, Bool, not, ◌&&◌, if◌then◌else◌, ◌==◌, u32, u64,
  is_set, bits, set_bit, clear_bit, put_bits, sext32, ◌<<<◌, ◌>>>◌, update,
}
use interp_mips.Cpu.{State, cpr0_sr}
use interp_mips.Exception.{cp1_cr31}
use interp_mips.Alu.Write.{set_gpr, skip}

abbrev pub cp1_cr0 : ℕ
cp1_cr0 = 0

abbrev pub cp1_cr25 : ℕ
cp1_cr25 = 2

abbrev pub cp1_cr26 : ℕ
cp1_cr26 = 3

abbrev pub cp1_cr28 : ℕ
cp1_cr28 = 4

abbrev pub fcc_bit : ℕ → ℕ
fcc_bit cc = if cc == 0 then 23 else 24 + cc

unfoldable pub get_condition_code : State → ℕ → ℕ
get_condition_code s cc = s.fcr1 cp1_cr31 >>> fcc_bit cc % 2

-- The condition codes 0 to n of FCSR, as the low bits of FCCR.
unfoldable pub fccr_of : ℕ → ℕ → ℕ
fccr_of zero f = bits f 23 1
fccr_of (suc n) f = fccr_of n f + bits f (24 + suc n) 1 <<< suc n

-- FCSR with its condition codes 0 to n those of FCCR, and the others 0.
unfoldable pub fcsr_of : ℕ → ℕ → ℕ → ℕ
fcsr_of zero v f = bits f 0 23 + bits f 24 1 <<< 24 + bits v 0 1 <<< 23
fcsr_of (suc n) v f = fcsr_of n v f + bits v (suc n) 1 <<< (24 + suc n)

unfoldable pub fcc_mirror_to_fccr : State → State
unfolding fccr_of
fcc_mirror_to_fccr s = record s { fcr1 = update s.fcr1 cp1_cr25 (fccr_of 7 (s.fcr1 cp1_cr31)) }

unfoldable pub fcc_mirror_from_fccr : State → State
unfolding fcsr_of
fcc_mirror_from_fccr s = record s {
  fcr1 = update s.fcr1 cp1_cr31 (fcsr_of 7 (s.fcr1 cp1_cr25) (s.fcr1 cp1_cr31));
}

unfoldable pub set_condition_code : State → Bool → ℕ → State
unfolding fcc_mirror_to_fccr
set_condition_code s v cc =
    let b = fcc_bit cc in
    let f = s.fcr1 cp1_cr31 in
    fcc_mirror_to_fccr
      (record s { fcr1 = update s.fcr1 cp1_cr31 (if v then set_bit f b else clear_bit f b) })

abbrev pub fcr_index : ℕ → ℕ
fcr_index cr =
    if cr == 0
    then cp1_cr0
    else if cr == 25
    then cp1_cr25
    else if cr == 26
    then cp1_cr26
    else if cr == 28
    then cp1_cr28
    else cp1_cr31

abbrev pub field_fs : ℕ → ℕ
field_fs inst = bits inst 11 5

abbrev pub field_rt : ℕ → ℕ
field_rt inst = bits inst 16 5

-- `cfc1`; the first argument is the flag for the R5000.
unfoldable pub cfc1 : Bool → ℕ → State → State
cfc1 r5000 inst s =
    let cr = field_fs inst in
    set_gpr s (field_rt inst)
      (sext32 (if cr == 0 then (if r5000 then 0x2320 else 0x500) else u32 (s.fcr1 (fcr_index cr))))

unfoldable pub ctc1 : ℕ → State → State
unfolding fcc_mirror_to_fccr fcc_mirror_from_fccr
ctc1 inst s =
    let cr = field_fs inst in
    let t = record s { fcr1 = update s.fcr1 (fcr_index cr) (u32 (s.gpr (field_rt inst))) } in
    skip (
      if cr == 0
      then s
      else if cr == 31
      then fcc_mirror_to_fccr t
      else if cr == 25
      then fcc_mirror_from_fccr t
      else t)

-- Status.FR: 32 flat registers, or 16 even ones of two halves.
abbrev pub fpr_fr1 : State → Bool
fpr_fr1 s = is_set (s.cpr0 cpr0_sr) 26

-- The register and the half of it, by its lowest bit, that stand for a single register.
abbrev pub fpr_reg : State → ℕ → ℕ
fpr_reg s r = if fpr_fr1 s then r else r - r % 2

abbrev pub fpr_high : State → ℕ → Bool
fpr_high s r = not (fpr_fr1 s) && is_set r 0

abbrev pub fpr_hw : State → ℕ → ℕ
fpr_hw s r = let x = s.cpr1 (fpr_reg s r) in if fpr_high s r then bits x 32 32 else bits x 0 32

abbrev pub put_half : Bool → ℕ → ℕ → ℕ
put_half high x v = if high then put_bits x 32 32 v else put_bits x 0 32 v

unfoldable pub mtc1 : ℕ → State → State
mtc1 inst s =
    let fs = field_fs inst in
    let v = s.gpr (field_rt inst) in
    skip (record s {
      cpr1 =
          if fpr_fr1 s
          then update s.cpr1 fs (sext32 v)
          else update s.cpr1 (fpr_reg s fs)
              (put_half (fpr_high s fs) (s.cpr1 (fpr_reg s fs)) (u32 v));
    })

unfoldable pub mfc1 : ℕ → State → State
mfc1 inst s = set_gpr s (field_rt inst) (sext32 (fpr_hw s (field_fs inst)))

unfoldable pub dmtc1 : ℕ → State → State
dmtc1 inst s = skip (record s { cpr1 = update s.cpr1 (field_fs inst) (s.gpr (field_rt inst)) })

unfoldable pub dmfc1 : ℕ → State → State
dmfc1 inst s = set_gpr s (field_rt inst) (s.cpr1 (field_fs inst))
