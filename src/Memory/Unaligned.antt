-- ===== src/Memory/Unaligned.antt =====
-- The unaligned loads and stores: each reads the aligned word around its address, and merges.
use interp_mips.Prelude.{ℕ, ◌-◌, ◌%◌, if◌then◌else◌}
use interp_mips.Tlb.Entry.{load, store}
use interp_mips.Tlb.Translate.{va_translate}
use interp_mips.Alu.Write.{set_gpr, skip}
use interp_mips.Memory.Sparse.{Devices, get, set, bswap32, bswap64}
use interp_mips.Memory.Access.{Machine, address, field_rt}
use interp_mips.Memory.Merge.{
  lwl_merge, lwr_merge, ldl_merge, ldr_merge, swl_merge, swr_merge, sdl_merge, sdr_merge,
}

module _ (V : Devices) where
  -- `merge ma r x`, for the word `r` of n bytes around the address.
  unfoldable pub load_merged : ℕ → (ℕ → ℕ) → (ℕ → ℕ → ℕ → ℕ) → ℕ → Machine V → Machine V
  load_merged n order merge inst (s, m) =
      let (t, ea) = va_translate s (address inst s) load in
      let ma = ea % n in
      let (r, m') = get V m n (ea - ma) in
      if t.tlb_fault
      then (t, m)
      else (set_gpr t (field_rt inst) (merge ma (order r) (t.gpr (field_rt inst))), m')

  unfoldable pub store_merged : ℕ → (ℕ → ℕ) → (ℕ → ℕ → ℕ → ℕ) → ℕ → Machine V → Machine V
  store_merged n order merge inst (s, m) =
      let (t, ea) = va_translate s (address inst s) store in
      let ma = ea % n in
      let (r, m') = get V m n (ea - ma) in
      if t.tlb_fault
      then (t, m)
      else (skip t, set V m' n (ea - ma) (order (merge ma (order r) (t.gpr (field_rt inst)))))

  unfoldable pub lwl : ℕ → Machine V → Machine V
  unfolding load_merged lwl_merge
  lwl = load_merged 4 (λ v. bswap32 v) lwl_merge

  unfoldable pub lwr : ℕ → Machine V → Machine V
  unfolding load_merged lwr_merge
  lwr = load_merged 4 (λ v. bswap32 v) lwr_merge

  unfoldable pub ldl : ℕ → Machine V → Machine V
  unfolding load_merged ldl_merge
  ldl = load_merged 8 (λ v. bswap64 v) ldl_merge

  unfoldable pub ldr : ℕ → Machine V → Machine V
  unfolding load_merged ldr_merge
  ldr = load_merged 8 (λ v. bswap64 v) ldr_merge

  unfoldable pub swl : ℕ → Machine V → Machine V
  unfolding store_merged swl_merge
  swl = store_merged 4 (λ v. bswap32 v) swl_merge

  unfoldable pub swr : ℕ → Machine V → Machine V
  unfolding store_merged swr_merge
  swr = store_merged 4 (λ v. bswap32 v) swr_merge

  unfoldable pub sdl : ℕ → Machine V → Machine V
  unfolding store_merged sdl_merge
  sdl = store_merged 8 (λ v. bswap64 v) sdl_merge

  unfoldable pub sdr : ℕ → Machine V → Machine V
  unfolding store_merged sdr_merge
  sdr = store_merged 8 (λ v. bswap64 v) sdr_merge
