-- ===== src/Examples.antt =====
-- Concrete machines, on which the examples of the child modules run the definitions.
mod Translation
mod Core
mod Guest
mod Dispatch
mod Board
mod Peripheral
mod Network
mod Storage
mod Picture
use interp_mips.Prelude.{ℕ, ◌+◌, ◌-◌, ◌^◌, Bool, true, false, if◌then◌else◌, ◌==◌, update}
use interp_mips.Cpu.{State, TlbEntry, UtlbEntry}
use interp_mips.Memory.Sparse.{Devices, SparseMem}
use interp_mips.Cache.{Cache, Cline}

abbrev pub no_entry : TlbEntry
no_entry = record { entry_hi = 0; entry_lo0 = 0; entry_lo1 = 0; page_mask = 0 }

abbrev pub no_slot : UtlbEntry
no_slot = record { vpn = 0; asid = 0; ppn = 0; dirty = false; valid = false; cached = false }

-- Two 4 KB pages at 0x2000 and 0x3000, valid, writable and cached, in every address space.
abbrev pub two_pages : TlbEntry
two_pages = record { entry_hi = 0x2000; entry_lo0 = 0x11F; entry_lo1 = 0x15F; page_mask = 0 }

-- A processor at 0x80001000 with the entry above, and registers 4 to 7 for the examples.
abbrev pub cpu : State
cpu = record {
  pc = 2 ^ 64 - 2 ^ 32 + 0x80001000;
  gpr = update (update (update (λ _. 0) 4 0x80000000) 5 7) 6 (2 ^ 32);
  lo = 0;
  hi = 0;
  cpr0 = update (λ _. 0) 1 47;
  cpr1 = λ _. 0;
  fcr1 = λ _. 0;
  icnt = 0;
  brk = 0;
  tlb = update (λ _. no_entry) 3 two_pages;
  cpr0_64 = λ _. 0;
  in_delay_slot = false;
  ll_armed = false;
  silent = true;
  tlb_fault = false;
  irq_poke = false;
  utlb = λ _. no_slot;
  cache_active = false;
  console_matched = 0;
}

-- The processor in a handler: EXL set.
abbrev pub in_handler : State
in_handler = record cpu { cpr0 = update cpu.cpr0 12 2 }

abbrev pub no_devices : Devices
no_devices = record { Board = ℕ; route_load = λ b a n. (0, b); route_store = λ b a n v. b }

abbrev pub ram : SparseMem no_devices
ram = record { bytes = λ a. if a == 5 then 0xAB else 0x11; board = 0; route_devices = false }

-- A cache with the dirty line of address 64.
abbrev pub cold : Cline
cold = record { valid = false; dirty = false; tag = 0; data_of = λ _. 0 }

abbrev pub warm : Cline
warm = record { valid = true; dirty = true; tag = 0; data_of = λ i. i }

abbrev pub one_line : Cache
one_line = record { dram = λ _. 0; l1 = update (λ _. cold) 2 warm }
