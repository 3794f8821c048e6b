-- ===== src/Examples/Core.antt =====
-- Runs of the exceptions, branches, interrupts, arithmetic and floating-point registers.
use interp_mips.Prelude.{◌-◌, ◌%◌, ◌^◌, ◌≡◌, ◌↔◌, refl, arith, true, false, bits, some, update}
use interp_mips.Prelude.Int.{◌+ℤ◌}
use interp_mips.Cpu.{State, ok, host_fault}
use interp_mips.Examples.{cpu, in_handler}
use interp_mips.Exception.{set_exc_pc, raise_common}
use interp_mips.Exception.Precise.{IsRaised, raise_common-IsRaised}
use interp_mips.Cp0.{exec_coproc0}
use interp_mips.Cp0.Return.{eret_inst, IsResumed, eret-raise_common}
use interp_mips.Interrupt.{Lines, maybe_take_interrupt}
use interp_mips.Interrupt.Delivery.{
  IsInterrupted, maybe_take_interrupt-IsInterrupted, IsUninterrupted,
  maybe_take_interrupt-IsUninterrupted,
}
use interp_mips.Alu.Special.{add32, exec_special, shift_value}
use interp_mips.Alu.Overflow.{signed, checked, add32-eq-checked}
use interp_mips.Alu.Divide.{TrapsHost, exec_special-host_fault}
use interp_mips.Fcr.{ctc1, get_condition_code}
use interp_mips.Fcr.Views.{IsMirrored, ctc1-IsMirrored}

raise_common-IsRaised_example : IsRaised 8 cpu (raise_common (set_exc_pc cpu) 8)
raise_common-IsRaised_example = raise_common-IsRaised cpu 8 (omega arith) (omega arith) refl

eret-raise_common_example :
    (u : State) × (exec_coproc0 eret_inst (raise_common (set_exc_pc cpu) 8) ≡ ok u)
    × IsResumed cpu u
eret-raise_common_example = eret-raise_common cpu 8 (omega arith) refl refl

-- A pending timer interrupt that EXL masks.
abbrev masked : State
masked = record in_handler { cpr0 = update (update in_handler.cpr0 12 0x8003) 13 0x8000 }

abbrev quiet : Lines
quiet = record { ip2 = true; np = true; ip3 = false }

maybe_take_interrupt-IsUninterrupted_example :
    IsUninterrupted masked (maybe_take_interrupt 64 quiet masked)
maybe_take_interrupt-IsUninterrupted_example =
    maybe_take_interrupt-IsUninterrupted 64 quiet masked refl

add32-eq-checked_example :
    add32 cpu 2 (2 ^ 31 - 1) 1 ≡ checked 32 cpu 2 (signed 32 (2 ^ 31 - 1) +ℤ signed 32 1)
add32-eq-checked_example = add32-eq-checked cpu 2 (2 ^ 31 - 1) 1 (omega arith) (omega arith)

-- `divu $5, $6`, whose divisor is 2 ^ 32.
exec_special-host_fault_example :
    (exec_special 0xA6001B cpu ≡ host_fault)
    ↔ TrapsHost (0xA6001B % 64) (cpu.gpr (bits 0xA6001B 21 5)) (cpu.gpr (bits 0xA6001B 16 5))
exec_special-host_fault_example = exec_special-host_fault 0xA6001B cpu

-- An enabled timer interrupt, as Count meets Compare.
abbrev due : State
due = record cpu { irq_poke = true; cpr0 = update (update (update cpu.cpr0 12 0x8001) 9 99) 11 100 }

maybe_take_interrupt-IsInterrupted_example : IsInterrupted due (maybe_take_interrupt 64 quiet due)
maybe_take_interrupt-IsInterrupted_example =
    maybe_take_interrupt-IsInterrupted 64 quiet due refl (omega arith) refl refl refl

shifted : shift_value 3 0 (2 ^ 31) 4 ≡ some 0xFFFFFFFFF8000000
unfolding shift_value
shifted = refl

cpu-IsMirrored : IsMirrored cpu
unfolding get_condition_code
cpu-IsMirrored k h = ground arith

-- `ctc1 $4, $25`.
ctc1-IsMirrored_example : IsMirrored (ctc1 0x44C4C800 cpu)
ctc1-IsMirrored_example = ctc1-IsMirrored 0x44C4C800 cpu (λ e. ground arith) cpu-IsMirrored
