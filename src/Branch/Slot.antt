-- ===== src/Branch/Slot.antt =====
-- `branch` and `run_delay_slot` of interpret.cc: the delay slot that a branch runs or skips.
use interp_mips.Prelude.{ℕ, ◌≡◌, refl, arith, true, false, not, ◌&&◌, Bool-cases, inl, inr}
use interp_mips.Cpu.{State, Outcome, ok, next_pc, sr_exl}
use interp_mips.Memory.Sparse.{Devices, SparseMem}
use interp_mips.Memory.Access.{Machine}
use interp_mips.Branch.{
  BranchType, is_likely, saves_return, take_branch, branch_target, link, finish, run_delay_slot,
  branch,
}

-- The state in which a branch runs its delay slot.
abbrev pub slot_state : State → BranchType → State
slot_state s bt =
    record (link (is_likely bt && saves_return bt) s.pc (record s { pc = next_pc s.pc })) {
      in_delay_slot = true;
    }

module _ (V : Devices) (exec : Machine V → Outcome (Machine V)) (s : State) (m : SparseMem V) where
  -- A branch runs its slot where it is taken or not likely.
  pub branch_runs :
      (bt : BranchType) (inst : ℕ) (t : State) (n : SparseMem V)
      → (is_likely bt && not (take_branch bt inst s)) ≡ false
      → exec (slot_state s bt, m) ≡ ok (t, n)
      → branch V exec bt inst (s, m)
        ≡ finish V exec
            (not (is_likely bt) && saves_return bt)
            s.pc
            (take_branch bt inst s)
            (branch_target inst s.pc)
            (ok (not (sr_exl s) && sr_exl t, (record t { in_delay_slot = s.in_delay_slot }, n)))
  unfolding branch run_delay_slot is_likely saves_return
  branch_runs bt inst t n r e = elim (Bool-cases (is_likely bt)) [
    | inl l ↦ elim (Bool-cases (take_branch bt inst s)) [
      | inl k ↦ rw (l, k, rw l at e) refl
      | inr k ↦ ground (arith, r, l, k)
    ]
    | inr l ↦ rw (l, rw l at e) refl
  ]

  -- A likely branch that is not taken skips its delay slot, whatever stands there, goes on
  -- eight bytes further, and links where its kind links.
  pub branch_skips :
      (bt : BranchType) (inst : ℕ)
      → is_likely bt ≡ true
      → take_branch bt inst s ≡ false
      → branch V exec bt inst (s, m)
        ≡ ok (record (link (saves_return bt) s.pc s) { pc = next_pc (next_pc s.pc) }, m)
  unfolding branch
  branch_skips bt inst l k = rw (l, k) refl
