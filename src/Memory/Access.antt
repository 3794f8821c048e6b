-- ===== src/Memory/Access.antt =====
-- The aligned loads and stores of interpret.cc, and load-linked and store-conditional. A machine is
-- the processor and the memory. The log of the store-conditionals is left out.
use interp_mips.Prelude.{
  ℕ, ◌+◌, ◌%◌, true, false, not, if◌then◌else◌, ◌==◌, u8, u64, bits, sext8, sext16, sext32,
}
use interp_mips.Cpu.{State}
use interp_mips.Exception.{raise_adel, raise_ades}
use interp_mips.Tlb.Entry.{load, store}
use interp_mips.Tlb.Translate.{va_translate}
use interp_mips.Alu.Write.{set_gpr, skip}
use interp_mips.Memory.Sparse.{Devices, SparseMem, get, set, bswap16, bswap32, bswap64}

-- The fields of an instruction with an offset, and its virtual address.
abbrev pub field_rt : ℕ → ℕ
field_rt inst = bits inst 16 5

abbrev pub address : ℕ → State → ℕ
address inst s = u64 (s.gpr (bits inst 21 5) + sext16 inst)

module _ (V : Devices) where
  abbrev pub Machine : Type 0
  Machine = State × SparseMem V

  -- A load of n bytes; `convert` orders and extends them.
  unfoldable pub load_value : ℕ → (ℕ → ℕ) → ℕ → Machine → Machine
  load_value n convert inst (s, m) =
      let (t, ea) = va_translate s (address inst s) load in
      let (v, m') = get V m n ea in
      if t.tlb_fault
      then (t, m)
      else if not (ea % n == 0)
      then (raise_adel t, m)
      else (set_gpr t (field_rt inst) (convert v), m')

  unfoldable pub lw : ℕ → Machine → Machine
  unfolding load_value
  lw = load_value 4 (λ v. sext32 (bswap32 v))

  unfoldable pub lh : ℕ → Machine → Machine
  unfolding load_value
  lh = load_value 2 (λ v. sext16 (bswap16 v))

  unfoldable pub lb : ℕ → Machine → Machine
  unfolding load_value
  lb = load_value 1 (λ v. sext8 v)

  unfoldable pub lbu : ℕ → Machine → Machine
  unfolding load_value
  lbu = load_value 1 (λ v. u8 v)

  unfoldable pub lhu : ℕ → Machine → Machine
  unfolding load_value
  lhu = load_value 2 (λ v. bswap16 v)

  unfoldable pub lwu : ℕ → Machine → Machine
  unfolding load_value
  lwu = load_value 4 (λ v. bswap32 v)

  unfoldable pub ld : ℕ → Machine → Machine
  unfolding load_value
  ld = load_value 8 (λ v. bswap64 v)

  unfoldable pub store_value : ℕ → (ℕ → ℕ) → ℕ → Machine → Machine
  store_value n convert inst (s, m) =
      let (t, ea) = va_translate s (address inst s) store in
      if t.tlb_fault
      then (t, m)
      else if not (ea % n == 0)
      then (raise_ades t, m)
      else (skip t, set V m n ea (convert (t.gpr (field_rt inst))))

  unfoldable pub sw : ℕ → Machine → Machine
  unfolding store_value
  sw = store_value 4 (λ x. bswap32 x)

  unfoldable pub sd : ℕ → Machine → Machine
  unfolding store_value
  sd = store_value 8 (λ x. bswap64 x)

  unfoldable pub sh : ℕ → Machine → Machine
  unfolding store_value
  sh = store_value 2 (λ x. bswap16 x)

  unfoldable pub sb : ℕ → Machine → Machine
  unfolding store_value
  sb = store_value 1 (λ x. u8 x)

  -- A store-conditional of n bytes: it checks no alignment, stores where the link is armed, and
  -- leaves 1 or 0 in rt.
  unfoldable pub store_conditional : ℕ → (ℕ → ℕ) → ℕ → Machine → Machine
  store_conditional n convert inst (s, m) =
      let (t, ea) = va_translate s (address inst s) store in
      if t.tlb_fault then (t, m) else (
        set_gpr t (field_rt inst) (if t.ll_armed then 1 else 0),
        if t.ll_armed then set V m n ea (convert (t.gpr (field_rt inst))) else m,
      )

  unfoldable pub sc : ℕ → Machine → Machine
  unfolding store_conditional
  sc = store_conditional 4 (λ x. bswap32 x)

  unfoldable pub scd : ℕ → Machine → Machine
  unfolding store_conditional
  scd = store_conditional 8 (λ x. bswap64 x)

  abbrev pub arm : Machine → Machine
  arm (s, m) = (if s.tlb_fault then s else record s { ll_armed = true }, m)

  abbrev pub disarm : Machine → Machine
  disarm (s, m) = (record s { ll_armed = false }, m)

  -- `ll`, `lld`, `sc` and `scd` as `execMips` calls them.
  unfoldable pub load_linked : ℕ → Machine → Machine
  unfolding lw
  load_linked inst c = arm (lw inst c)

  unfoldable pub load_linked_d : ℕ → Machine → Machine
  unfolding ld
  load_linked_d inst c = arm (ld inst c)

  unfoldable pub store_cond : ℕ → Machine → Machine
  unfolding sc
  store_cond inst c = disarm (sc inst c)

  unfoldable pub store_cond_d : ℕ → Machine → Machine
  unfolding scd
  store_cond_d inst c = disarm (scd inst c)
