-- ===== src/Dispatch/Coherent.antt =====
-- The CACHE instruction and what the processor sees: only Hit_Invalidate may change it.
use interp_mips.Prelude.{
  ℕ, ◌^◌, ◌<◌, ◌≡◌, ◌≢◌, refl, arith, false, if◌then◌else◌, ◌==◌, bits, u32, some, none, Option,
  if_both, ◌∙◌,
}
use interp_mips.Cpu.{State}
use interp_mips.Tlb.Ops.{tlb_probe_ro}
use interp_mips.Memory.Access.{address}
use interp_mips.Cache.{
  Cache, set_of, written_back, resident, wb, dropped, hit_wb, hit_wb_inval, index_wb_inval,
}
use interp_mips.Cache.View.{view, IsValid, written_back-view}
use interp_mips.Cache.Flush.{wb-dropped-view, hit_wb_inval-IsFlushed}
use interp_mips.Dispatch.CacheOp.{exec_cache, on_hit}

-- Two caches through which the processor sees the same memory.
abbrev pub IsSeenAlike : Cache → Cache → Type 0
IsSeenAlike c d = (p : ℕ) → p < 2 ^ 32 → view d p ≡ view c p

module _ (c : Cache) (i : ℕ) (v : IsValid c) where
  written :
      (p : ℕ)
      → p < 2 ^ 32
      → written_back c (set_of i) p ≡ (if set_of p == set_of i then view c p else c.dram p)
  written p k = written_back-view c (set_of i) p v.tagged v.synced (omega arith) k

  dropped_alike : IsSeenAlike c (dropped (wb c (set_of i)) (set_of i))
  dropped_alike p k = wb-dropped-view c i p ∙ ground (arith, written p k)

  wb_alike : IsSeenAlike c (wb c (set_of i))
  unfolding wb
  wb_alike p k = ground (arith, written p k)

  index_alike : IsSeenAlike c (index_wb_inval c i)
  unfolding index_wb_inval
  index_alike =
      if_both (IsSeenAlike c) ((wb c (set_of i)).l1 (set_of i)).valid _ _ dropped_alike wb_alike

  hit_wb_alike : IsSeenAlike c (hit_wb c i)
  unfolding hit_wb
  hit_wb_alike = if_both (IsSeenAlike c) (resident c i) _ _ wb_alike (λ p k. refl)

on_hit_alike :
    (o : Option ℕ) (f : ℕ → Cache) (c : Cache)
    → ((pa : ℕ) → IsSeenAlike c (f pa))
    → IsSeenAlike c (on_hit o f c)
on_hit_alike (some pa) f c h = h pa
on_hit_alike none f c h = λ p k. refl

-- A CACHE instruction on a valid cache, of any operation but Hit_Invalidate, on any cache and
-- at any address, mapped or not, leaves the memory that the processor sees as it was at every
-- 32-bit address.
pub exec_cache-IsSeenAlike :
    (inst : ℕ) (s : State) (c : Cache)
    → IsValid c
    → bits inst 18 3 ≢ 4
    → IsSeenAlike c ((exec_cache inst (s, c)).1)
unfolding exec_cache
exec_cache-IsSeenAlike inst s c v h =
    let same = λ (p : ℕ) (k : p < 2 ^ 32). refl {a = view c p} in
    let op = bits inst 18 3 in
    let not_four : (op == 4) ≡ false = ground (arith, h) in
    let found = tlb_probe_ro s (address inst s) in
    if_both (IsSeenAlike c) (bits inst 16 2 == 1) _ _
      (if_both (IsSeenAlike c) (op == 0) _ _ (index_alike c (u32 (address inst s)) v) (
        rw not_four (
          if_both (IsSeenAlike c) (op == 5) _ _
            (on_hit_alike found (hit_wb_inval c) c (λ pa. (hit_wb_inval-IsFlushed c pa v).kept))
            (if_both (IsSeenAlike c) (op == 6) _ _
              (on_hit_alike found (hit_wb c) c (λ pa. hit_wb_alike c pa v)) same))))
      same
