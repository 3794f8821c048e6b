-- ===== src/Dispatch/Slot.antt =====
-- The instructions with a delay slot, the machine on which a slot runs, and branches and jumps
-- that run it in two ways.
use interp_mips.Prelude.{
  ℕ, ◌%◌, ◌≡◌, refl, arith, Bool, true, false, not, ◌&&◌, ◌||◌, if◌then◌else◌, ◌==◌, bits, update,
  Option, some, none, Bool-cases, inl, inr,
}
use interp_mips.Cpu.{State, Outcome, next_pc}
use interp_mips.Memory.Sparse.{Devices, SparseMem}
use interp_mips.Memory.Access.{Machine}
use interp_mips.Branch.{
  BranchType, is_likely, saves_return, take_branch, branch, run_delay_slot, link, regimm, jr, jalr,
  jump,
}
use interp_mips.Dispatch.Gates.{opcode_of}
use interp_mips.Dispatch.Float.{cp1_branch}
use interp_mips.Dispatch.Step.{branch_of}

-- An instruction with a delay slot.
abbrev pub is_jump : ℕ → Bool
is_jump inst =
    let op = opcode_of inst in
    let funct = inst % 64 in
    ((op == 0) && (funct == 8 || funct == 9))
    || (op == 1 || op == 2 || op == 3 || op == 4 || op == 5 || op == 6 || op == 7)
    || (op == 0x14 || op == 0x15 || op == 0x16 || op == 0x17)
    || ((op == 0x11) && (bits inst 21 5 == 8))

abbrev branch_links : Option BranchType → Bool
branch_links (some bt) = is_likely bt && saves_return bt
branch_links none = false

-- What a jump at `s` leaves in the registers before its slot runs.
abbrev pub slot_gpr : ℕ → State → ℕ → ℕ
slot_gpr inst s =
    let op = opcode_of inst in
    let rd = bits inst 11 5 in
    let back = next_pc (next_pc s.pc) in
    if op == 0
    then (if inst % 64 == 9 && not (rd == 0) then update s.gpr rd back else s.gpr)
    else if op == 3
    then update s.gpr 31 back
    else if op == 1 && branch_links (regimm (bits inst 16 5))
    then update s.gpr 31 back
    else s.gpr

abbrev pub slot_machine : (V : Devices) → ℕ → Machine V → Machine V
slot_machine V inst (s, m) =
    (record s { pc = next_pc s.pc; gpr = slot_gpr inst s; in_delay_slot = true }, m)

pub if_agree {ℓ} :
    {A : Type ℓ} (b : Bool) {x y x' y' : A}
    → (b ≡ true → x ≡ x')
    → (b ≡ false → y ≡ y')
    → (if b then x else y) ≡ (if b then x' else y')
if_agree true p q = p refl
if_agree false p q = q refl

-- A branch on a condition code does not link.
pub cp1_links : (inst : ℕ) → (is_likely (cp1_branch inst) && saves_return (cp1_branch inst)) ≡ false
unfolding is_likely saves_return
cp1_links inst = ground arith

-- Nor does one with an opcode of its own, which is a jump.
pub branch_of_links :
    (op : ℕ) (bt : BranchType) → branch_of op ≡ some bt → (is_likely bt && saves_return bt) ≡ false
unfolding is_likely saves_return
branch_of_links op bt n = ground arith

pub branch_of_jumps :
    (inst : ℕ) (bt : BranchType) → branch_of (opcode_of inst) ≡ some bt → is_jump inst ≡ true
branch_of_jumps inst bt n = ground arith

module _ (V : Devices) (exec other : Machine V → Outcome (Machine V)) where
  -- Two ways to run the slot that agree on it give the same branch.
  pub branch_agrees :
      (bt : BranchType) (inst : ℕ) (s : State) (m : SparseMem V)
      → let slot = record (link (is_likely bt && saves_return bt) s.pc s) {
        pc = next_pc s.pc;
        in_delay_slot = true;
      } in
        exec (slot, m) ≡ other (slot, m)
        → branch V exec bt inst (s, m) ≡ branch V other bt inst (s, m)
  unfolding branch run_delay_slot
  branch_agrees bt inst s m e = elim (Bool-cases (is_likely bt)) [
    | inl l ↦ elim (Bool-cases (take_branch bt inst s)) [
      | inl t ↦ rw (l, t, rw l at e) refl
      | inr t ↦ rw (l, t) refl
    ]
    | inr l ↦ rw (l, rw l at e) refl
  ]

  pub jr_agrees :
      (inst : ℕ) (s : State) (m : SparseMem V)
      → let slot = record s { pc = next_pc s.pc; in_delay_slot = true } in
        exec (slot, m) ≡ other (slot, m) → jr V exec inst (s, m) ≡ jr V other inst (s, m)
  unfolding jr run_delay_slot
  jr_agrees inst s m e = rw e refl

  pub jalr_agrees :
      (inst : ℕ) (s : State) (m : SparseMem V)
      → let rd = bits inst 11 5 in
        let slot = record s {
          pc = next_pc s.pc;
          gpr = if rd == 0 then s.gpr else update s.gpr rd (next_pc (next_pc s.pc));
          in_delay_slot = true;
        } in
        exec (slot, m) ≡ other (slot, m) → jalr V exec inst (s, m) ≡ jalr V other inst (s, m)
  unfolding jalr run_delay_slot
  jalr_agrees inst s m e = rw e refl

  pub jump_agrees :
      (links : Bool) (inst : ℕ) (s : State) (m : SparseMem V)
      → let slot = record (link links s.pc s) { pc = next_pc s.pc; in_delay_slot = true } in
        exec (slot, m) ≡ other (slot, m)
        → jump V exec links inst (s, m) ≡ jump V other links inst (s, m)
  unfolding jump run_delay_slot
  jump_agrees links inst s m e = rw e refl
