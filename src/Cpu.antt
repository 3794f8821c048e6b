-- ===== src/Cpu.antt =====
-- The simulated processor: `state_t` of interpret.hh, its Status register bits and the numbers of
-- its coprocessor-0 registers. A register is its bit pattern, below 2 ^ 64 or 2 ^ 32. An array
-- indexed by a register number is a function. The memory stands apart (`Memory`), but for the
-- flag `cache_active` which the address translation sets on it. `utlb` is the global `g_utlb`, and
-- `console_matched` the counter of `console_watch`.
use interp_mips.Prelude.{ℕ, ◌+◌, ◌%◌, ◌^◌, Bool, is_set}

-- `tlb_entry_t`: R | VPN2 | ASID, the even and the odd page, and the page mask.
pub record TlbEntry : Type 0 where
  pub entry_hi : ℕ
  pub entry_lo0 : ℕ
  pub entry_lo1 : ℕ
  pub page_mask : ℕ

-- `utlb_entry`: one slot of the micro-TLB.
pub record UtlbEntry : Type 0 where
  pub vpn : ℕ
  pub asid : ℕ
  pub ppn : ℕ
  pub dirty : Bool
  pub valid : Bool
  pub cached : Bool

pub record State : Type 0 where
  pub pc : ℕ
  pub gpr : ℕ → ℕ
  pub lo : ℕ
  pub hi : ℕ
  pub cpr0 : ℕ → ℕ
  pub cpr1 : ℕ → ℕ
  pub fcr1 : ℕ → ℕ
  pub icnt : ℕ
  pub brk : ℕ
  pub tlb : ℕ → TlbEntry
  pub cpr0_64 : ℕ → ℕ
  pub in_delay_slot : Bool
  pub ll_armed : Bool
  pub silent : Bool
  pub tlb_fault : Bool
  pub irq_poke : Bool
  pub utlb : ℕ → UtlbEntry
  pub cache_active : Bool
  pub console_matched : ℕ

-- How a step of the simulator ends: normally, by `exit(-1)`, by a failed `assert`, or by a
-- division that traps the host.
pub data Outcome {ℓ} (A : Type ℓ) : Type ℓ where
  ok : A → Outcome A
  exits : Outcome A
  aborts : Outcome A
  host_fault : Outcome A

abbrev pub num_tlb_entries : ℕ
num_tlb_entries = 48

abbrev pub cpr0_index : ℕ
cpr0_index = 0

abbrev pub cpr0_random : ℕ
cpr0_random = 1

abbrev pub cpr0_entrylo0 : ℕ
cpr0_entrylo0 = 2

abbrev pub cpr0_entrylo1 : ℕ
cpr0_entrylo1 = 3

abbrev pub cpr0_context : ℕ
cpr0_context = 4

abbrev pub cpr0_pagemask : ℕ
cpr0_pagemask = 5

abbrev pub cpr0_wired : ℕ
cpr0_wired = 6

abbrev pub cpr0_badvaddr : ℕ
cpr0_badvaddr = 8

abbrev pub cpr0_count : ℕ
cpr0_count = 9

abbrev pub cpr0_entryhi : ℕ
cpr0_entryhi = 10

abbrev pub cpr0_compare : ℕ
cpr0_compare = 11

abbrev pub cpr0_sr : ℕ
cpr0_sr = 12

abbrev pub cpr0_cause : ℕ
cpr0_cause = 13

abbrev pub cpr0_epc : ℕ
cpr0_epc = 14

abbrev pub cpr0_prid : ℕ
cpr0_prid = 15

abbrev pub cpr0_xcontext : ℕ
cpr0_xcontext = 20

abbrev pub cpr0_errorepc : ℕ
cpr0_errorepc = 30

-- The bits of Status.
abbrev pub sr_ie : State → Bool
sr_ie s = is_set (s.cpr0 cpr0_sr) 0

abbrev pub sr_exl : State → Bool
sr_exl s = is_set (s.cpr0 cpr0_sr) 1

abbrev pub sr_erl : State → Bool
sr_erl s = is_set (s.cpr0 cpr0_sr) 2

abbrev pub sr_bev : State → Bool
sr_bev s = is_set (s.cpr0 cpr0_sr) 22

-- `pc += 4`, in 64 bits.
abbrev pub next_pc : ℕ → ℕ
next_pc pc = (pc + 4) % 2 ^ 64
