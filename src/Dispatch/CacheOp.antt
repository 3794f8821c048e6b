-- ===== src/Dispatch/CacheOp.antt =====
-- The CACHE instruction, opcode 0x2f of `execMips`, with the cache model on. The emulated tags of
-- a secondary cache (SCSIZE) and the logs are off, as they are by default.
use interp_mips.Prelude.{ℕ, if◌then◌else◌, ◌==◌, u32, bits, Option, none, some}
use interp_mips.Cpu.{State}
use interp_mips.Tlb.Ops.{tlb_probe_ro}
use interp_mips.Alu.Write.{skip}
use interp_mips.Memory.Access.{address}
use interp_mips.Cache.{Cache, index_wb_inval, hit_inval, hit_wb_inval, hit_wb}

-- The hit operations act where the address is mapped.
abbrev pub on_hit : Option ℕ → (ℕ → Cache) → Cache → Cache
on_hit (some pa) f c = f pa
on_hit none f c = c

unfoldable pub exec_cache : ℕ → State × Cache → State × Cache
unfolding index_wb_inval hit_inval hit_wb_inval hit_wb
exec_cache inst (s, c) =
    let va = address inst s in
    let cacheop = bits inst 18 3 in
    (
      skip s,
      if bits inst 16 2 == 1
          then (if cacheop == 0
              then index_wb_inval c (u32 va)
              else if cacheop == 4
              then on_hit (tlb_probe_ro s va) (hit_inval c) c
              else if cacheop == 5
              then on_hit (tlb_probe_ro s va) (hit_wb_inval c) c
              else if cacheop == 6
              then on_hit (tlb_probe_ro s va) (hit_wb c) c
              else c)
          else c,
    )
