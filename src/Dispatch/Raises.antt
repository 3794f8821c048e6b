-- ===== src/Dispatch/Raises.antt =====
-- The instructions of opcode 0, and the reserved opcodes, that raise an exception without a look
-- at the memory, through the gates and the decoder of execMips.
use interp_mips.Prelude.{
  ℕ, ◌%◌, ◌^◌, ◌<◌, ◌≡◌, refl, arith, Bool, true, false, ◌||◌, if◌then◌else◌, ◌==◌, ◌∙◌, Bool-cases,
  inl, inr, u32, bits, Option, none, some,
}
use interp_mips.Prelude.Int.{◌+ℤ◌, ◌-ℤ◌}
use interp_mips.Cpu.{State, Outcome, ok}
use interp_mips.Exception.{
  set_exc_pc, raise_common, raise_syscall, raise_break, raise_trap, raise_overflow,
  take_exception_ri,
}
use interp_mips.Memory.Sparse.{Devices, SparseMem}
use interp_mips.Memory.Access.{Machine}
use interp_mips.Alu.Special.{
  shift_value, logic_value, trap_condition, add32, subtract32, by_trap, exec_other, exec_special,
}
use interp_mips.Alu.HiLo.{exec_hi_lo}
use interp_mips.Alu.Overflow.{signed, fits, add32-eq-checked, subtract32-eq-checked}
use interp_mips.Dispatch.Float.{on_state}
use interp_mips.Dispatch.Gates.{opcode_of, is_64b_gated, is_mips4, is_cp1, gates}
use interp_mips.Dispatch.Step.{exec_rtype, dispatch, decode}

-- The code of the exception that a trap raises where its condition holds.
abbrev pub trap_code : Option Bool → Option ℕ
trap_code (some true) = some 13
trap_code (some false) = none
trap_code none = none

-- The code of the exception that an instruction of opcode 0 raises: a system call, a breakpoint,
-- an addition or a subtraction that does not fit a word, or a trap whose condition holds.
abbrev pub special_code : ℕ → ℕ → ℕ → Option ℕ
special_code funct rs rt =
    if funct == 0x0c
    then some 8
    else if funct == 0x0d
    then some 9
    else if funct == 0x20
    then (if fits 32 (signed 32 (u32 rs) +ℤ signed 32 (u32 rt)) then none else some 12)
    else if funct == 0x22
    then (if fits 32 (signed 32 (u32 rs) -ℤ signed 32 (u32 rt)) then none else some 12)
    else trap_code (trap_condition funct rs rt)

-- That code for an instruction of opcode 0 or of one of the two reserved opcodes.
abbrev pub slot_code : ℕ → State → Option ℕ
slot_code inst s =
    if opcode_of inst == 0
    then special_code (inst % 64) (s.gpr (bits inst 21 5)) (s.gpr (bits inst 16 5))
    else if opcode_of inst == 0x1c || opcode_of inst == 0x1f
    then some 10
    else none

-- The functions of opcode 0 that `special_code` names.
abbrev raises : ℕ → Bool
raises f =
    (f == 0x0c || f == 0x0d || f == 0x20 || f == 0x22)
    || (f == 0x30 || f == 0x31 || f == 0x32)
    || (f == 0x33 || f == 0x34 || f == 0x36)

special_code-raises : (f rs rt code : ℕ) → special_code f rs rt ≡ some code → raises f ≡ true
unfolding trap_condition
special_code-raises f rs rt code h = ground arith

shift_value-raises : (f rs rt sa : ℕ) → raises f ≡ true → shift_value f rs rt sa ≡ none
unfolding shift_value
shift_value-raises f rs rt sa h = ground arith

logic_value-raises : (f rs rt rd old : ℕ) → raises f ≡ true → logic_value f rs rt rd old ≡ none
unfolding logic_value
logic_value-raises f rs rt rd old h = ground arith

exec_hi_lo-raises :
    (f : ℕ) (s : State) (rs rt rd : ℕ) → raises f ≡ true → exec_hi_lo f s rs rt rd ≡ none
unfolding exec_hi_lo
exec_hi_lo-raises f s rs rt rd h = ground arith

add32-raises :
    (s : State) (rd u v : ℕ)
    → u < 2 ^ 32
    → v < 2 ^ 32
    → fits 32 (signed 32 u +ℤ signed 32 v) ≡ false
    → add32 s rd u v ≡ raise_overflow s
add32-raises s rd u v p q h = add32-eq-checked s rd u v p q ∙ rw h refl

subtract32-raises :
    (s : State) (rd u v : ℕ)
    → u < 2 ^ 32
    → v < 2 ^ 32
    → fits 32 (signed 32 u -ℤ signed 32 v) ≡ false
    → subtract32 s rd u v ≡ raise_overflow s
subtract32-raises s rd u v p q h = subtract32-eq-checked s rd u v p q ∙ rw h refl

other-raises :
    (f : ℕ) (s : State) (rs rt rd code : ℕ)
    → special_code f rs rt ≡ some code
    → by_trap s (trap_condition f rs rt) (exec_other f s rs rt rd)
      ≡ raise_common (set_exc_pc s) code
unfolding exec_other trap_condition raise_syscall raise_break raise_trap raise_overflow
other-raises f s rs rt rd code h =
    let a = add32-raises s rd (u32 rs) (u32 rt) (omega arith) (omega arith) in
    let b = subtract32-raises s rd (u32 rs) (u32 rt) (omega arith) (omega arith) in
    elim (Bool-cases (fits 32 (signed 32 (u32 rs) +ℤ signed 32 (u32 rt)))) [
      | inl p ↦ elim (Bool-cases (fits 32 (signed 32 (u32 rs) -ℤ signed 32 (u32 rt)))) [
        | inl q ↦ ground arith
        | inr q ↦ ground (arith, b q)
      ]
      | inr p ↦ elim (Bool-cases (fits 32 (signed 32 (u32 rs) -ℤ signed 32 (u32 rt)))) [
        | inl q ↦ ground (arith, a p)
        | inr q ↦ ground (arith, a p, b q)
      ]
    ]

special-raises :
    (inst code : ℕ) (s : State)
    → special_code (inst % 64) (s.gpr (bits inst 21 5)) (s.gpr (bits inst 16 5)) ≡ some code
    → exec_special inst s ≡ ok (raise_common (set_exc_pc s) code)
unfolding exec_special
special-raises inst code s h =
    let f = inst % 64 in
    let rs = s.gpr (bits inst 21 5) in
    let rt = s.gpr (bits inst 16 5) in
    let rd = bits inst 11 5 in
    let r = special_code-raises f rs rt code h in
    simp
      (
        shift_value-raises f rs rt (bits inst 6 5) r,
        logic_value-raises f rs rt rd (s.gpr rd) r,
        exec_hi_lo-raises f s rs rt rd r,
        other-raises f s rs rt rd code h,
      )
      refl

-- These are no moves and no jumps.
raises_elsewhere :
    (f : ℕ)
    → raises f ≡ true
    → ((f == 0x01) ≡ false) × ((f == 0x08) ≡ false) × ((f == 0x09) ≡ false)
raises_elsewhere f h = (ground arith, ground arith, ground arith)

gates-raises :
    (r5000 : Bool) (inst : ℕ) (t : State)
    → (opcode_of inst == 0) ≡ true
    → raises (inst % 64) ≡ true
    → gates r5000 inst t ≡ none
unfolding gates is_64b_gated is_mips4 is_cp1
gates-raises r5000 inst t z h = ground arith

gates-reserved :
    (r5000 : Bool) (inst : ℕ) (t : State)
    → (opcode_of inst == 0x1c || opcode_of inst == 0x1f) ≡ true
    → gates r5000 inst t ≡ none
unfolding gates is_64b_gated is_mips4 is_cp1
gates-reserved r5000 inst t z = ground arith

pub slot_code-below : (inst code : ℕ) (s : State) → slot_code inst s ≡ some code → code < 32
slot_code-below inst code s h = ground arith

module _ (V : Devices) (r5000 : Bool) (arithmetic : ℕ → State → Outcome State)
    (coproc1x : ℕ → Machine V → Outcome (Machine V)) where
  dispatch-special :
      (exec : Machine V → Outcome (Machine V)) (inst : ℕ) (t : State) (n : SparseMem V)
      → (opcode_of inst == 0) ≡ true
      → raises (inst % 64) ≡ true
      → dispatch V r5000 arithmetic coproc1x exec inst (t, n) ≡ on_state V n (exec_special inst t)
  unfolding dispatch exec_rtype
  dispatch-special exec inst t n z h =
      let (a, b, c) = raises_elsewhere (inst % 64) h in rw (z, a, b, c) refl

  dispatch-reserved :
      (exec : Machine V → Outcome (Machine V)) (inst : ℕ) (t : State) (n : SparseMem V)
      → (opcode_of inst == 0) ≡ false
      → (opcode_of inst == 0x1c || opcode_of inst == 0x1f) ≡ true
      → dispatch V r5000 arithmetic coproc1x exec inst (t, n) ≡ ok (take_exception_ri t, n)
  unfolding dispatch
  dispatch-reserved exec inst t n y z = rw (y, z) refl

  -- An instruction with a code passes the gates and ends in the exception of its code.
  pub decode-raises :
      (exec : Machine V → Outcome (Machine V)) (inst code : ℕ) (t : State) (n : SparseMem V)
      → slot_code inst t ≡ some code
      → decode V r5000 arithmetic coproc1x exec inst (t, n)
        ≡ ok (raise_common (set_exc_pc t) code, n)
  unfolding decode take_exception_ri
  decode-raises exec inst code t n h = elim (Bool-cases (opcode_of inst == 0)) [
    | inl z ↦
        let k = rw z at h in
        let f = special_code-raises (inst % 64) _ _ code k in
        rw (gates-raises r5000 inst t z f, dispatch-special exec inst t n z f)
          (rw (special-raises inst code t k) refl)
    | inr y ↦ elim (Bool-cases (opcode_of inst == 0x1c || opcode_of inst == 0x1f)) [
      | inl z ↦
          let k = rw (y, z) at h in
          rw (gates-reserved r5000 inst t z, dispatch-reserved exec inst t n y z)
            (ground (arith, k))
      | inr z ↦ absurd (ground (arith, y, z))
    ]
  ]
