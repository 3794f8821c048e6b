-- ===== src/Dispatch/Float.antt =====
-- Coprocessor 1 as `execMips` reaches it: its loads and stores, the conditional moves, and the
-- decoder `execCoproc1`, with the arithmetic as a parameter. `currFpMode` is `mips3`, the value it
-- has from the start and keeps.
use interp_mips.Prelude.{ℕ, ◌%◌, ◌^◌, Bool, not, ◌&&◌, ◌||◌, if◌then◌else◌, ◌==◌, bits, leb, update}
use interp_mips.Cpu.{State, Outcome, ok, exits, aborts, host_fault}
use interp_mips.Exception.{take_exception_ri, take_exception_fpe}
use interp_mips.Tlb.Entry.{load, store}
use interp_mips.Tlb.Translate.{va_translate}
use interp_mips.Alu.Write.{set_gpr, skip}
use interp_mips.Memory.Sparse.{Devices, SparseMem, get, set, bswap32, bswap64}
use interp_mips.Memory.Access.{Machine, address, field_rt}
use interp_mips.Fcr.{
  get_condition_code, fpr_reg, fpr_high, fpr_hw, put_half, mfc1, mtc1, dmfc1, dmtc1, cfc1, ctc1,
}
use interp_mips.Branch.{BranchType, bc1f, bc1t, bc1fl, bc1tl, branch}

abbrev pub field_fd : ℕ → ℕ
field_fd inst = bits inst 6 5

abbrev pub field_cc : ℕ → ℕ
field_cc inst = bits inst 18 3

-- `s->cpr1[fd] = take ? s->cpr1[fs] : s->cpr1[fd]`.
abbrev pub move_if : Bool → ℕ → State → State
move_if take inst s =
    let fd = field_fd inst in
    skip (record s { cpr1 = update s.cpr1 fd (s.cpr1 (if take then bits inst 11 5 else fd)) })

abbrev pub format_s : ℕ
format_s = 16

abbrev pub format_d : ℕ
format_d = 17

-- `unsupported` formats end the run.
abbrev pub by_format : ℕ → State → Outcome State
by_format inst s =
    let fmt = bits inst 21 5 in if fmt == format_s || fmt == format_d then ok s else exits

-- Whether the condition code is the `tf` bit of the instruction.
abbrev pub code_holds : ℕ → State → Bool
code_holds inst s = get_condition_code s (field_cc inst) == bits inst 16 1

unfoldable pub fmovc : ℕ → State → Outcome State
fmovc inst s = by_format inst (move_if (code_holds inst s) inst s)

unfoldable pub fmovz : ℕ → State → Outcome State
fmovz inst s = by_format inst (move_if (s.gpr (field_rt inst) == 0) inst s)

unfoldable pub fmovn : ℕ → State → Outcome State
fmovn inst s = by_format inst (move_if (not (s.gpr (field_rt inst) == 0)) inst s)

unfoldable pub movci : ℕ → State → State
movci inst s =
    let rd = bits inst 11 5 in
    set_gpr s rd (s.gpr (if code_holds inst s then bits inst 21 5 else rd))

-- The functions that `execCoproc1` hands to the arithmetic: 0 to 15, `recip`, `rsqrt`, the
-- conversions and the comparisons.
abbrev pub is_arithmetic : ℕ → Bool
is_arithmetic f =
    (leb f 0xf || f == 0x15 || f == 0x16 || f == 0x20 || f == 0x21)
    || (f == 0x24 || f == 0x25 || leb 0x30 f)

unfoldable pub exec_cp1_function : Bool → (ℕ → State → Outcome State) → ℕ → State → Outcome State
unfolding fmovc fmovz fmovn
exec_cp1_function r5000 arithmetic inst s =
    let f = inst % 64 in
    if is_arithmetic f
    then arithmetic inst s
    else if leb 0x11 f && leb f 0x13 && not r5000
    then ok (take_exception_fpe s)
    else if f == 0x11
    then fmovc inst s
    else if f == 0x12
    then fmovz inst s
    else if f == 0x13
    then fmovn inst s
    else ok (take_exception_ri s)

abbrev pub cp1_branch : ℕ → BranchType
cp1_branch inst =
    let nd_tf = bits inst 16 2 in
    if nd_tf == 0 then bc1f else if nd_tf == 1 then bc1t else if nd_tf == 2 then bc1fl else bc1tl

-- The moves, for the field that names them.
unfoldable pub cp1_move : Bool → ℕ → State → State
cp1_move r5000 inst s =
    let field = bits inst 21 5 in
    if field == 0
    then mfc1 inst s
    else if field == 4
    then mtc1 inst s
    else if field == 1
    then dmfc1 inst s
    else if field == 5
    then dmtc1 inst s
    else if field == 2
    then cfc1 r5000 inst s
    else ctc1 inst s

abbrev pub is_cp1_move : ℕ → Bool
is_cp1_move inst =
    let field = bits inst 21 5 in
    (inst % 2 ^ 11 == 0)
    && (field == 0 || field == 4 || field == 2 || field == 6 || field == 1 || field == 5)

module _ (V : Devices) where
  -- A load of n bytes into a register; no alignment is checked.
  unfoldable pub load_float : ℕ → (State → ℕ → State) → ℕ → Machine V → Machine V
  load_float n put inst (s, m) =
      let (t, ea) = va_translate s (address inst s) load in
      let (v, m') = get V m n ea in if t.tlb_fault then (t, m) else (skip (put t v), m')

  unfoldable pub store_float : ℕ → (State → ℕ) → ℕ → Machine V → Machine V
  store_float n value inst (s, m) =
      let (t, ea) = va_translate s (address inst s) store in
      if t.tlb_fault then (t, m) else (skip t, set V m n ea (value t))

  unfoldable pub ldc1 : ℕ → Machine V → Machine V
  unfolding load_float
  ldc1 inst =
      load_float 8
        (λ t v. record t { cpr1 = update t.cpr1 (fpr_reg t (field_rt inst)) (bswap64 v) }) inst

  unfoldable pub sdc1 : ℕ → Machine V → Machine V
  unfolding store_float
  sdc1 inst = store_float 8 (λ t. bswap64 (t.cpr1 (fpr_reg t (field_rt inst)))) inst

  unfoldable pub lwc1 : ℕ → Machine V → Machine V
  unfolding load_float
  lwc1 inst =
      load_float 4
        (λ t v.
          let ft = field_rt inst in
          record t {
            cpr1 =
                update t.cpr1 (fpr_reg t ft)
                  (put_half (fpr_high t ft) (t.cpr1 (fpr_reg t ft)) (bswap32 v));
          })
        inst

  unfoldable pub swc1 : ℕ → Machine V → Machine V
  unfolding store_float
  swc1 inst = store_float 4 (λ t. bswap32 (fpr_hw t (field_rt inst))) inst

  -- An instruction of the processor alone.
  abbrev pub on_state : SparseMem V → Outcome State → Outcome (Machine V)
  on_state m (ok s) = ok (s, m)
  on_state m exits = exits
  on_state m aborts = aborts
  on_state m host_fault = host_fault

  unfoldable pub exec_coproc1 :
      (Machine V → Outcome (Machine V))
      → Bool
      → (ℕ → State → Outcome State)
      → ℕ
      → Machine V
      → Outcome (Machine V)
  unfolding cp1_move exec_cp1_function
  exec_coproc1 exec r5000 arithmetic inst (s, m) =
      if bits inst 21 5 == 8
      then branch V exec (cp1_branch inst) inst (s, m)
      else if is_cp1_move inst
      then ok (cp1_move r5000 inst s, m)
      else on_state m (exec_cp1_function r5000 arithmetic inst s)
