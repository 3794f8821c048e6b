-- ===== src/Examples/Dispatch.antt =====
-- Runs of the step of the processor.
use interp_mips.Prelude.{
  ℕ, ◌+◌, ◌≡◌, refl, arith, true, false, not, ◌&&◌, some, if◌then◌else◌, ◌==◌,
}
use interp_mips.Cpu.{State, Outcome, ok, exits, host_fault}
use interp_mips.Examples.{cpu, no_devices, ram}
use interp_mips.Memory.Sparse.{SparseMem, get}
use interp_mips.Tlb.Translate.{va_translate}
use interp_mips.Memory.Access.{Machine}
use interp_mips.Alu.Write.{set_gpr}
use interp_mips.Alu.Special.{exec_special, shift_value}
use interp_mips.Branch.{beq, branch, is_likely, take_branch}
use interp_mips.Dispatch.Step.{fetch_inst, nest, exec_mips, decode}
use interp_mips.Dispatch.Depth.{ends_within, nest_settles}
use interp_mips.Branch.Slot.{slot_state}
use interp_mips.Dispatch.SlotFault.{IsSlotRaised, branch-IsSlotRaised}
use interp_mips.Dispatch.Unusable.{IsUnusable, decode-IsUnusable}

-- `beq $0, $0, 4` at 0x1000, and a `nop` in its slot.
abbrev beq_ram : SparseMem no_devices
beq_ram = record ram { bytes = λ a. if a == 0x1000 then 0x10 else if a == 0x1003 then 4 else 0 }

abbrev no_arithmetic : ℕ → State → Outcome State
no_arithmetic inst s = exits

abbrev no_coproc1x : ℕ → Machine no_devices → Outcome (Machine no_devices)
no_coproc1x inst c = exits

abbrev overflow : Machine no_devices → Outcome (Machine no_devices)
overflow c = host_fault

abbrev stopped : Machine no_devices → Outcome (Machine no_devices)
stopped c = exits

beq_ends :
    ends_within no_devices false no_arithmetic no_coproc1x 2 (fetch_inst no_devices (cpu, beq_ram))
    ≡ true
unfolding fetch_inst va_translate get
beq_ends = refl

nest_settles_example :
    nest no_devices false no_arithmetic no_coproc1x 5 overflow (cpu, beq_ram)
    ≡ nest no_devices false no_arithmetic no_coproc1x 2 stopped (cpu, beq_ram)
nest_settles_example =
    nest_settles no_devices false no_arithmetic no_coproc1x overflow stopped 2 5 (cpu, beq_ram)
      (omega arith) beq_ends

-- `mfc1 $0, $f0`.
decode-IsUnusable_example :
    IsUnusable no_devices cpu ram
      (decode no_devices false no_arithmetic no_coproc1x stopped 0x44000000 (cpu, ram))
decode-IsUnusable_example =
    decode-IsUnusable no_devices false no_arithmetic no_coproc1x stopped 0x44000000 cpu ram refl
      refl refl refl (omega arith)

-- The pc at the end of a step.
abbrev pc_of : Outcome (Machine no_devices) → ℕ
pc_of (ok (s, m)) = s.pc
pc_of _ = 0

beq_target :
    pc_of (exec_mips no_devices false no_arithmetic no_coproc1x 2 (cpu, beq_ram)) ≡ cpu.pc + 20
unfolding exec_mips va_translate get branch is_likely take_branch exec_special shift_value set_gpr
beq_target = refl

-- The same `beq`, with a `syscall` in its slot.
abbrev syscall_ram : SparseMem no_devices
syscall_ram = record ram {
  bytes =
      λ a. if a == 0x1000 then 0x10 else if a == 0x1003 then 4 else if a == 0x1007 then 0x0C else 0;
}

abbrev in_slot : State
in_slot = (fetch_inst no_devices (slot_state cpu beq, syscall_ram)).1.0

beq_runs : (is_likely beq && not (take_branch beq 0x10000004 cpu)) ≡ false
unfolding is_likely
beq_runs = refl

syscall_fetched :
    fetch_inst no_devices (slot_state cpu beq, syscall_ram) ≡ (some 0x0C, (in_slot, syscall_ram))
unfolding fetch_inst va_translate get
syscall_fetched = refl

branch-IsSlotRaised_example : IsSlotRaised no_devices cpu syscall_ram 8 (
    branch no_devices
      (exec_mips no_devices false no_arithmetic no_coproc1x 1)
      beq
      0x10000004
      (cpu, syscall_ram))
branch-IsSlotRaised_example =
    branch-IsSlotRaised no_devices false no_arithmetic no_coproc1x 0 cpu syscall_ram beq 0x10000004
      0x0C 8 in_slot syscall_ram (omega arith) (omega arith) refl beq_runs syscall_fetched refl
