-- ===== src/Dispatch/Step.antt =====
-- The decoder of `execMips` and the step itself. `depth` bounds the calls of `execMips` that stand
-- in one another, each in the delay slot of the one before; past it the stack of the host is full.
-- The decoder takes the execution of a slot as `exec`.
use interp_mips.Prelude.{
  ℕ, zero, suc, ◌+◌, ◌%◌, Bool, false, ◌||◌, if◌then◌else◌, ◌==◌, u64, update, Option, some, none,
}
use interp_mips.Cpu.{State, Outcome, ok, exits, host_fault}
use interp_mips.Exception.{take_exception_ri}
use interp_mips.Tlb.Entry.{fetch}
use interp_mips.Tlb.Translate.{va_translate}
use interp_mips.Cp0.{exec_coproc0}
use interp_mips.Alu.Write.{skip}
use interp_mips.Alu.Special.{exec_special}
use interp_mips.Alu.Immediate.{exec_immediate}
use interp_mips.Memory.Sparse.{Devices, SparseMem, get, bswap32}
use interp_mips.Memory.Access.{
  Machine, lw, lh, lb, lbu, lhu, lwu, ld, sw, sd, sh, sb, load_linked, load_linked_d, store_cond,
  store_cond_d,
}
use interp_mips.Memory.Unaligned.{lwl, lwr, ldl, ldr, swl, swr, sdl, sdr}
use interp_mips.Branch.{
  BranchType, beq, bne, blez, bgtz, beql, bnel, blezl, bgtzl, branch, bgez_bltz, jr, jalr, jump,
}
use interp_mips.Dispatch.Gates.{opcode_of, gates}
use interp_mips.Dispatch.Float.{movci, ldc1, sdc1, lwc1, swc1, on_state, exec_coproc1}

-- The kinds of the branches with an opcode of their own.
abbrev pub branch_of : ℕ → Option BranchType
branch_of op =
    if op == 0x04
    then some beq
    else if op == 0x05
    then some bne
    else if op == 0x06
    then some blez
    else if op == 0x07
    then some bgtz
    else if op == 0x14
    then some beql
    else if op == 0x15
    then some bnel
    else if op == 0x16
    then some blezl
    else if op == 0x17
    then some bgtzl
    else none

module _ (V : Devices) where
  -- The loads, and the stores, by opcode.
  unfoldable pub load_of : ℕ → Option (ℕ → Machine V → Machine V)
  load_of op =
      if op == 0x1a
      then some (ldl V)
      else if op == 0x1b
      then some (ldr V)
      else if op == 0x20
      then some (lb V)
      else if op == 0x21
      then some (lh V)
      else if op == 0x22
      then some (lwl V)
      else if op == 0x23
      then some (lw V)
      else if op == 0x24
      then some (lbu V)
      else if op == 0x25
      then some (lhu V)
      else if op == 0x26
      then some (lwr V)
      else if op == 0x27
      then some (lwu V)
      else if op == 0x31
      then some (lwc1 V)
      else if op == 0x35
      then some (ldc1 V)
      else if op == 0x37
      then some (ld V)
      else if op == 0x30
      then some (load_linked V)
      else if op == 0x34
      then some (load_linked_d V)
      else none

  unfoldable pub store_of : ℕ → Option (ℕ → Machine V → Machine V)
  store_of op =
      if op == 0x28
      then some (sb V)
      else if op == 0x29
      then some (sh V)
      else if op == 0x2a
      then some (swl V)
      else if op == 0x2b
      then some (sw V)
      else if op == 0x2c
      then some (sdl V)
      else if op == 0x2d
      then some (sdr V)
      else if op == 0x2e
      then some (swr V)
      else if op == 0x39
      then some (swc1 V)
      else if op == 0x3d
      then some (sdc1 V)
      else if op == 0x3f
      then some (sd V)
      else if op == 0x38
      then some (store_cond V)
      else if op == 0x3c
      then some (store_cond_d V)
      else none

  abbrev pub by_immediate : SparseMem V → Option State → State → Machine V
  by_immediate m (some t) other = (t, m)
  by_immediate m none other = (other, m)

  -- The other opcodes of the last switch: the immediates, `cache` with the model off, `pref`, and
  -- the reserved ones.
  unfoldable pub exec_rest : ℕ → Machine V → Machine V
  exec_rest inst (s, m) =
      let op = opcode_of inst in
      by_immediate m (exec_immediate inst s)
        (if op == 0x2f || op == 0x33 then skip s else take_exception_ri s)

  abbrev pub by_access :
      Option (ℕ → Machine V → Machine V)
      → Option (ℕ → Machine V → Machine V)
      → ℕ
      → Machine V
      → Machine V
  by_access (some f) o inst c = f inst c
  by_access none (some f) inst c = f inst c
  by_access none none inst c = exec_rest inst c

  -- The state with which a step starts.
  abbrev pub start : State → State
  start s = record s { gpr = update s.gpr 0 0; tlb_fault = false }

  -- The instruction at the pc, and the machine after its fetch; without one, the fetch faulted.
  unfoldable pub fetch_inst : Machine V → Option ℕ × Machine V
  fetch_inst (s, m) =
      let (t, ipa) = va_translate (start s) s.pc fetch in
      let (v, m') = get V m 4 ipa in
      if t.tlb_fault
      then (none, (t, m))
      else (some (bswap32 v), (record t { icnt = u64 (t.icnt + 1) }, m'))

  module _ (r5000 : Bool) (arithmetic : ℕ → State → Outcome State)
      (coproc1x : ℕ → Machine V → Outcome (Machine V)) where
    module _ (exec : Machine V → Outcome (Machine V)) where
      unfoldable pub exec_rtype : ℕ → Machine V → Outcome (Machine V)
      unfolding movci jr jalr
      exec_rtype inst (s, m) =
          let funct = inst % 64 in
          if funct == 0x01
          then ok (movci inst s, m)
          else if funct == 0x08
          then jr V exec inst (s, m)
          else if funct == 0x09
          then jalr V exec inst (s, m)
          else on_state V m (exec_special inst s)

      abbrev pub by_branch : Option BranchType → ℕ → Machine V → Outcome (Machine V)
      by_branch (some bt) inst c = branch V exec bt inst c
      by_branch none inst c =
          ok (by_access (load_of (opcode_of inst)) (store_of (opcode_of inst)) inst c)

      -- The decoder, by the opcode.
      unfoldable pub dispatch : ℕ → Machine V → Outcome (Machine V)
      unfolding exec_rtype load_of store_of exec_rest
      dispatch inst (s, m) =
          let op = opcode_of inst in
          if op == 0x00
          then exec_rtype inst (s, m)
          else if op == 0x1c || op == 0x1f
          then ok (take_exception_ri s, m)
          else if op == 0x02 || op == 0x03
          then jump V exec (op == 0x03) inst (s, m)
          else if op == 0x10
          then on_state V m (exec_coproc0 inst s)
          else if op == 0x11
          then exec_coproc1 V exec r5000 arithmetic inst (s, m)
          else if op == 0x13
          then coproc1x inst (s, m)
          else if op == 0x12
          then exits
          else if op == 0x01
          then bgez_bltz V exec inst (s, m)
          else by_branch (branch_of op) inst (s, m)

      abbrev pub by_gate : Option State → ℕ → Machine V → Outcome (Machine V)
      by_gate (some t) inst (s, m) = ok (t, m)
      by_gate none inst c = dispatch inst c

      -- What `execMips` does with an instruction that it has fetched and counted.
      unfoldable pub decode : ℕ → Machine V → Outcome (Machine V)
      unfolding gates dispatch
      decode inst (s, m) = by_gate (gates r5000 inst s) inst (s, m)

    abbrev pub run_fetched :
        (Machine V → Outcome (Machine V)) → Option ℕ × Machine V → Outcome (Machine V)
    run_fetched exec (none, c) = ok c
    run_fetched exec (some inst, c) = decode exec inst c

    -- `depth` calls, the last of which runs its slot by `bottom`.
    unfoldable pub nest : ℕ → (Machine V → Outcome (Machine V)) → Machine V → Outcome (Machine V)
    unfolding decode fetch_inst
    nest zero bottom c = bottom c
    nest (suc depth) bottom c = run_fetched (nest depth bottom) (fetch_inst c)

    unfoldable pub exec_mips : ℕ → Machine V → Outcome (Machine V)
    unfolding nest
    exec_mips depth c = nest depth (λ c. host_fault) c
