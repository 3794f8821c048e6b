-- ===== src/Branch.antt =====
-- The branches and jumps of interpret.cc and their delay slots. `exec` stands for `execMips`,
-- which a branch calls on its delay slot. The FASTDELAY shortcut is off, as it is by default, and
-- so is the histogram.
pub mod Slot
use interp_mips.Prelude.{
  ℕ, ◌+◌, ◌-◌, ◌*◌, ◌/◌, ◌%◌, ◌^◌, Bool, true, false, not, ◌&&◌, ◌||◌, if◌then◌else◌, ◌==◌, ltb,
  u64, bits, ◌<<<◌, sext16, slt64, update, Option, some, none,
}
use interp_mips.Cpu.{State, Outcome, ok, exits, aborts, host_fault, next_pc, sr_exl}
use interp_mips.Exception.{raise_trap}
use interp_mips.Fcr.{get_condition_code}
use interp_mips.Alu.Special.{trap_if, trap_condition}
use interp_mips.Memory.Sparse.{Devices}
use interp_mips.Memory.Access.{Machine}

pub data BranchType : Type 0 where
  beq : BranchType
  bne : BranchType
  blez : BranchType
  bgtz : BranchType
  beql : BranchType
  bnel : BranchType
  blezl : BranchType
  bgtzl : BranchType
  bgez : BranchType
  bgezl : BranchType
  bltz : BranchType
  bltzl : BranchType
  bgezal : BranchType
  bltzal : BranchType
  bgezall : BranchType
  bltzall : BranchType
  bc1f : BranchType
  bc1t : BranchType
  bc1fl : BranchType
  bc1tl : BranchType

-- `a < 0` and `a <= 0` of an int64_t.
abbrev pub below_zero : ℕ → Bool
below_zero a = not (ltb a (2 ^ 63))

abbrev pub at_most_zero : ℕ → Bool
at_most_zero a = below_zero a || (a == 0)

unfoldable pub takes : BranchType → ℕ → ℕ → ℕ → Bool
takes beq a b k = b == a
takes beql a b k = b == a
takes bne a b k = not (b == a)
takes bnel a b k = not (b == a)
takes blez a b k = at_most_zero a
takes blezl a b k = at_most_zero a
takes bgtz a b k = not (at_most_zero a)
takes bgtzl a b k = not (at_most_zero a)
takes bgez a b k = not (below_zero a)
takes bgezl a b k = not (below_zero a)
takes bgezal a b k = not (below_zero a)
takes bgezall a b k = not (below_zero a)
takes bltz a b k = below_zero a
takes bltzl a b k = below_zero a
takes bltzal a b k = below_zero a
takes bltzall a b k = below_zero a
takes bc1t a b k = k == 1
takes bc1tl a b k = k == 1
takes bc1f a b k = k == 0
takes bc1fl a b k = k == 0

unfoldable pub is_likely : BranchType → Bool
is_likely beql = true
is_likely bnel = true
is_likely blezl = true
is_likely bgtzl = true
is_likely bgezl = true
is_likely bltzl = true
is_likely bgezall = true
is_likely bltzall = true
is_likely bc1fl = true
is_likely bc1tl = true
is_likely _ = false

unfoldable pub saves_return : BranchType → Bool
saves_return bgezal = true
saves_return bltzal = true
saves_return bgezall = true
saves_return bltzall = true
saves_return _ = false

unfoldable pub take_branch : BranchType → ℕ → State → Bool
unfolding takes
take_branch bt inst s =
    takes bt (s.gpr (bits inst 21 5)) (s.gpr (bits inst 16 5))
      (get_condition_code s (bits inst 18 3))

-- `imm + npc`, the offset in words.
abbrev pub branch_target : ℕ → ℕ → ℕ
branch_target inst pc = u64 (next_pc pc + sext16 inst <<< 2)

-- `s->gpr[31] = npc + 4`, where the branch links.
abbrev pub link : Bool → ℕ → State → State
link saves pc s = record s { gpr = if saves then update s.gpr 31 (next_pc (next_pc pc)) else s.gpr }

abbrev pub regimm : ℕ → Option BranchType
regimm rt =
    if rt == 0
    then some bltz
    else if rt == 1
    then some bgez
    else if rt == 2
    then some bltzl
    else if rt == 3
    then some bgezl
    else if rt == 16
    then some bltzal
    else if rt == 17
    then some bgezal
    else if rt == 18
    then some bltzall
    else if rt == 19
    then some bgezall
    else none

module _ (V : Devices) (exec : Machine V → Outcome (Machine V)) where
  -- Whether the instruction in the delay slot raised Status.EXL, and the machine after it.
  abbrev pub slot_end : Bool → Bool → Outcome (Machine V) → Outcome (Bool × Machine V)
  slot_end saved before (ok (t, m)) =
      ok (not before && sr_exl t, (record t { in_delay_slot = saved }, m))
  slot_end saved before exits = exits
  slot_end saved before aborts = aborts
  slot_end saved before host_fault = host_fault

  unfoldable pub run_delay_slot : Machine V → Outcome (Bool × Machine V)
  run_delay_slot (s, m) =
      slot_end s.in_delay_slot (sr_exl s) (exec (record s { in_delay_slot = true }, m))

  -- The rest of a branch at `pc`: the link of a branch that is not likely, and the new pc.
  abbrev pub finish : Bool → ℕ → Bool → ℕ → Outcome (Bool × Machine V) → Outcome (Machine V)
  finish saves pc taken target (ok (faulted, (t, m))) =
      let u = link saves pc t in
      ok (if taken && not faulted then record u { pc = target } else u, m)
  finish saves pc taken target exits = exits
  finish saves pc taken target aborts = aborts
  finish saves pc taken target host_fault = host_fault

  unfoldable pub branch : BranchType → ℕ → Machine V → Outcome (Machine V)
  unfolding run_delay_slot
  branch bt inst (s, m) =
      let taken = take_branch bt inst s in
      let target = branch_target inst s.pc in
      let next = record s { pc = next_pc s.pc } in
      let linked = link (saves_return bt) s.pc next in
      if is_likely bt
      then (if taken
          then finish false s.pc true target (run_delay_slot (linked, m))
          else ok (record linked { pc = next_pc (next_pc s.pc) }, m))
      else finish (saves_return bt) s.pc taken target (run_delay_slot (next, m))

  -- `_bgez_bltz`: the branches of opcode 1, and its traps, whose condition is that of the trap of
  -- opcode 0 at the function 0x28 + rt.
  abbrev by_regimm : ℕ → Machine V → Option BranchType → Option Bool → Outcome (Machine V)
  by_regimm inst c (some bt) o = branch bt inst c
  by_regimm inst (s, m) none (some trap) = ok (trap_if s trap, m)
  by_regimm inst c none none = exits

  unfoldable pub bgez_bltz : ℕ → Machine V → Outcome (Machine V)
  unfolding branch trap_condition
  bgez_bltz inst (s, m) =
      let rt = bits inst 16 5 in
      by_regimm inst (s, m) (regimm rt)
        (trap_condition (0x28 + rt) (s.gpr (bits inst 21 5)) (sext16 inst))

  -- The jumps, to a register and to a target in the same 256 MB.
  unfoldable pub jr : ℕ → Machine V → Outcome (Machine V)
  unfolding run_delay_slot
  jr inst (s, m) =
      finish false s.pc true (s.gpr (bits inst 21 5))
        (run_delay_slot (record s { pc = next_pc s.pc }, m))

  unfoldable pub jalr : ℕ → Machine V → Outcome (Machine V)
  unfolding run_delay_slot
  jalr inst (s, m) =
      let rd = bits inst 11 5 in
      let linked = if rd == 0 then s.gpr else update s.gpr rd (next_pc (next_pc s.pc)) in
      finish false s.pc true (s.gpr (bits inst 21 5))
        (run_delay_slot (record s { pc = next_pc s.pc; gpr = linked }, m))

  unfoldable pub jump : Bool → ℕ → Machine V → Outcome (Machine V)
  unfolding run_delay_slot
  jump links inst (s, m) =
      let npc = next_pc s.pc in
      let t = link links s.pc (record s { pc = npc }) in
      finish false s.pc true (npc - npc % 2 ^ 28 + bits inst 0 26 <<< 2) (run_delay_slot (t, m))
