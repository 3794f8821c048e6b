-- ===== src/Dispatch/Agree.antt =====
-- Two ways to run a delay slot that agree on it give the same step.
use interp_mips.Prelude.{
  ℕ, ◌%◌, ◌≡◌, ◌≢◌, refl, arith, Bool, true, false, ◌&&◌, ◌||◌, ◌==◌, bits, some, Bool-cases, inl,
  inr, Option-cases,
}
use interp_mips.Cpu.{State, Outcome, next_pc}
use interp_mips.Alu.Special.{trap_condition}
use interp_mips.Memory.Sparse.{Devices, SparseMem}
use interp_mips.Memory.Access.{Machine}
use interp_mips.Branch.{
  BranchType, is_likely, saves_return, link, regimm, bgez_bltz, jr, jalr, jump,
}
use interp_mips.Dispatch.Gates.{opcode_of}
use interp_mips.Dispatch.Float.{cp1_branch, exec_coproc1}
use interp_mips.Dispatch.Step.{branch_of, by_branch, exec_rtype, dispatch}
use interp_mips.Dispatch.Slot.{
  is_jump, slot_machine, if_agree, cp1_links, branch_of_links, branch_of_jumps, branch_agrees,
  jr_agrees, jalr_agrees, jump_agrees,
}

module _ (V : Devices) (exec other : Machine V → Outcome (Machine V)) where
  module _ (r5000 : Bool) (arithmetic : ℕ → State → Outcome State)
      (coproc1x : ℕ → Machine V → Outcome (Machine V)) where
    jalr_at :
        (inst : ℕ) (s : State) (m : SparseMem V)
        → opcode_of inst ≡ 0
        → (inst % 64 == 9) ≡ true
        → exec (slot_machine V inst (s, m)) ≡ other (slot_machine V inst (s, m))
        → jalr V exec inst (s, m) ≡ jalr V other inst (s, m)
    jalr_at inst s m z k e = elim (Bool-cases (bits inst 11 5 == 0)) [
      | inl r ↦ jalr_agrees V exec other inst s m (rw r (rw (z, k, r) at e))
      | inr r ↦ jalr_agrees V exec other inst s m (rw r (rw (z, k, r) at e))
    ]

    jr_at :
        (inst : ℕ) (s : State) (m : SparseMem V)
        → opcode_of inst ≡ 0
        → (inst % 64 == 8) ≡ true
        → exec (slot_machine V inst (s, m)) ≡ other (slot_machine V inst (s, m))
        → jr V exec inst (s, m) ≡ jr V other inst (s, m)
    jr_at inst s m z k e =
        let n : (inst % 64 == 9) ≡ false = ground arith in
        jr_agrees V exec other inst s m (rw (z, n) at e)

    rtype_agrees :
        (inst : ℕ) (s : State) (m : SparseMem V)
        → opcode_of inst ≡ 0
        → (is_jump inst ≡ true
            → exec (slot_machine V inst (s, m)) ≡ other (slot_machine V inst (s, m)))
        → exec_rtype V r5000 arithmetic coproc1x exec inst (s, m)
          ≡ exec_rtype V r5000 arithmetic coproc1x other inst (s, m)
    unfolding exec_rtype
    rtype_agrees inst s m z h =
        if_agree (inst % 64 == 1) (λ k. refl)
          (λ k1.
            if_agree (inst % 64 == 8) (λ k. jr_at inst s m z k (h (ground arith)))
              (λ k2.
                if_agree (inst % 64 == 9) (λ k. jalr_at inst s m z k (h (ground arith)))
                  (λ k3. refl)))

    bgez_bltz_agrees :
        (inst : ℕ) (s : State) (m : SparseMem V)
        → opcode_of inst ≡ 1
        → exec (slot_machine V inst (s, m)) ≡ other (slot_machine V inst (s, m))
        → bgez_bltz V exec inst (s, m) ≡ bgez_bltz V other inst (s, m)
    unfolding bgez_bltz trap_condition
    bgez_bltz_agrees inst s m z e = elim (Option-cases (regimm (bits inst 16 5))) [
      | inl n ↦ rw n refl
      | inr (bt, n) ↦ rw n (branch_agrees V exec other bt inst s m (at_slot bt n))
    ]
      where
        at_slot :
            (bt : BranchType)
            → regimm (bits inst 16 5) ≡ some bt
            → let slot = record (link (is_likely bt && saves_return bt) s.pc s) {
              pc = next_pc s.pc;
              in_delay_slot = true;
            } in
              exec (slot, m) ≡ other (slot, m)
        at_slot bt n = elim (Bool-cases (is_likely bt && saves_return bt)) [
          | inl l ↦ rw l (rw (z, n, l) at e)
          | inr l ↦ rw l (rw (z, n, l) at e)
        ]

    cp1_agrees :
        (inst : ℕ) (s : State) (m : SparseMem V)
        → opcode_of inst ≡ 0x11
        → (is_jump inst ≡ true
            → exec (slot_machine V inst (s, m)) ≡ other (slot_machine V inst (s, m)))
        → exec_coproc1 V exec r5000 arithmetic inst (s, m)
          ≡ exec_coproc1 V other r5000 arithmetic inst (s, m)
    unfolding exec_coproc1
    cp1_agrees inst s m z h =
        if_agree (bits inst 21 5 == 8)
          (λ k.
            branch_agrees V exec other (cp1_branch inst) inst s m
              (rw (cp1_links inst) (rw z at (h (ground arith)))))
          (λ k. refl)

    by_branch_agrees :
        (inst : ℕ) (s : State) (m : SparseMem V)
        → opcode_of inst ≢ 0
        → opcode_of inst ≢ 1
        → opcode_of inst ≢ 3
        → (is_jump inst ≡ true
            → exec (slot_machine V inst (s, m)) ≡ other (slot_machine V inst (s, m)))
        → by_branch V r5000 arithmetic coproc1x exec (branch_of (opcode_of inst)) inst (s, m)
          ≡ by_branch V r5000 arithmetic coproc1x other (branch_of (opcode_of inst)) inst (s, m)
    by_branch_agrees inst s m p q r h = elim (Option-cases (branch_of (opcode_of inst))) [
      | inl n ↦ rw n refl
      | inr (bt, n) ↦ rw n (branch_agrees V exec other bt inst s m (at_slot bt n))
    ]
      where
        ne0 : (opcode_of inst == 0) ≡ false
        ne0 = ground (arith, p)

        ne1 : (opcode_of inst == 1) ≡ false
        ne1 = ground (arith, q)

        ne3 : (opcode_of inst == 3) ≡ false
        ne3 = ground (arith, r)

        at_slot :
            (bt : BranchType)
            → branch_of (opcode_of inst) ≡ some bt
            → let slot = record (link (is_likely bt && saves_return bt) s.pc s) {
              pc = next_pc s.pc;
              in_delay_slot = true;
            } in
              exec (slot, m) ≡ other (slot, m)
        at_slot bt n =
            rw (branch_of_links (opcode_of inst) bt n)
              (rw (ne0, ne1, ne3) at (h (branch_of_jumps inst bt n)))

    jump_at :
        (inst : ℕ) (s : State) (m : SparseMem V)
        → exec (slot_machine V inst (s, m)) ≡ other (slot_machine V inst (s, m))
        → (opcode_of inst == 2 || opcode_of inst == 3) ≡ true
        → jump V exec (opcode_of inst == 3) inst (s, m)
          ≡ jump V other (opcode_of inst == 3) inst (s, m)
    jump_at inst s m e z = elim (Bool-cases (opcode_of inst == 3)) [
      | inl k ↦
          let three : opcode_of inst ≡ 3 = ground arith in
          jump_agrees V exec other (opcode_of inst == 3) inst s m (rw three (rw three at e))
      | inr k ↦
          let two : opcode_of inst ≡ 2 = ground arith in
          jump_agrees V exec other (opcode_of inst == 3) inst s m (rw two (rw two at e))
    ]

    pub dispatch_agrees :
        (inst : ℕ) (s : State) (m : SparseMem V)
        → (is_jump inst ≡ true
            → exec (slot_machine V inst (s, m)) ≡ other (slot_machine V inst (s, m)))
        → dispatch V r5000 arithmetic coproc1x exec inst (s, m)
          ≡ dispatch V r5000 arithmetic coproc1x other inst (s, m)
    unfolding dispatch
    dispatch_agrees inst s m h =
        if_agree (opcode_of inst == 0) (λ z. rtype_agrees inst s m (ground arith) h)
          (λ z0.
            if_agree (opcode_of inst == 0x1c || opcode_of inst == 0x1f) (λ z. refl)
              (λ z1.
                if_agree (opcode_of inst == 0x02 || opcode_of inst == 0x03)
                  (λ z. jump_at inst s m (h (ground arith)) z)
                  (λ z2.
                    if_agree (opcode_of inst == 0x10) (λ z. refl)
                      (λ z3.
                        if_agree (opcode_of inst == 0x11)
                          (λ z. cp1_agrees inst s m (ground arith) h)
                          (λ z4.
                            if_agree (opcode_of inst == 0x13) (λ z. refl)
                              (λ z5.
                                if_agree (opcode_of inst == 0x12) (λ z. refl)
                                  (λ z6.
                                    if_agree (opcode_of inst == 0x01)
                                      (λ z.
                                        bgez_bltz_agrees inst s m (ground arith) (h (ground arith)))
                                      (λ z7.
                                        by_branch_agrees inst s m (ground arith) (ground arith)
                                          (ground arith) h))))))))
