-- ===== src/Examples/Guest.antt =====
-- Runs of the guest memory and of the cache.
use interp_mips.Prelude.{
  ◌+◌, ◌-◌, ◌≡◌, refl, arith, true, if◌then◌else◌, ltb, leb, ◌&&◌, sext32, some, update,
}
use interp_mips.Cpu.{State}
use interp_mips.Examples.{cpu, no_devices, ram, one_line}
use interp_mips.Alu.Write.{set_gpr}
use interp_mips.Tlb.Translate.{unmapped, va_translate}
use interp_mips.Memory.Access.{address, field_rt, lw, sw}
use interp_mips.Memory.Unaligned.{lwl, lwr}
use interp_mips.Memory.Joined.{IsBytes, word_at}
use interp_mips.Tlb.Entry.{load, store}
use interp_mips.Tlb.Translate.{found}
use interp_mips.Memory.Access.{load_value}
use interp_mips.Memory.Misaligned.{IsRefused, load_value-IsRefused}
use interp_mips.Memory.Pairs.{Reaches, lw-sw, lwr-lwl}
use interp_mips.Dispatch.CacheOp.{exec_cache}
use interp_mips.Dispatch.Coherent.{IsSeenAlike, exec_cache-IsSeenAlike}
use interp_mips.Cache.{cstore, cload, hit_wb_inval}
use interp_mips.Cache.View.{view, IsValid}
use interp_mips.Cache.Laws.{view-cstore, cload-view}
use interp_mips.Cache.Flush.{IsFlushed, hit_wb_inval-IsFlushed}

-- `sw $5, 8($4)` by the cached segment and `lw $7, 8($6)` by the uncached one.
abbrev both_segments : State
both_segments = record cpu { gpr = update cpu.gpr 6 0xA0000000 }

sw-Reaches : Reaches both_segments (address 0xAC850008 both_segments) store 8
unfolding va_translate
sw-Reaches = (refl, refl)

lw-Reaches :
    Reaches
      (sw no_devices 0xAC850008 (both_segments, ram)).0
      (address 0x8CC70008 (sw no_devices 0xAC850008 (both_segments, ram)).0)
      load
      8
unfolding va_translate sw
lw-Reaches = (refl, refl)

lw-sw_example :
    (lw no_devices 0x8CC70008 (sw no_devices 0xAC850008 (both_segments, ram))).0.gpr
      (field_rt 0x8CC70008)
    ≡ sext32 (both_segments.gpr (field_rt 0xAC850008))
lw-sw_example =
    lw-sw no_devices both_segments ram 0xAC850008 0x8CC70008 8 refl sw-Reaches lw-Reaches refl

-- `lwl $7, 5($4)` and `lwr $7, 8($4)`: the word at 5, over the boundary of two words.
lwl_address : unmapped (address 0x88870005 cpu) ≡ some (5, true)
unfolding unmapped
lwl_address = refl

lwr_address :
    unmapped (address 0x98870008 (lwl no_devices 0x88870005 (cpu, ram)).0) ≡ some (8, true)
unfolding unmapped lwl va_translate set_gpr
lwr_address = refl

-- `ll $7, 5($4)`, and the same offset for `lw` and `sw`.
odd_address : unmapped (address 0xC0870005 cpu) ≡ some (5, true)
unfolding unmapped
odd_address = refl

load_value-IsRefused_example :
    IsRefused no_devices 4
      (found cpu load true)
      ram
      (load_value no_devices 4 (λ v. sext32 v) 0xC0870005 (cpu, ram))
load_value-IsRefused_example =
    load_value-IsRefused no_devices cpu ram true refl 4 (λ v. sext32 v) 0xC0870005 5 odd_address
      (omega arith) (omega arith) refl

ram-IsBytes : IsBytes ram.bytes
ram-IsBytes i = ground arith

lwr-lwl_example :
    (lwr no_devices 0x98870008 (lwl no_devices 0x88870005 (cpu, ram))).0.gpr (field_rt 0x98870008)
    ≡ sext32 (word_at ram.bytes 5)
lwr-lwl_example =
    lwr-lwl no_devices cpu ram true refl refl 0x88870005 0x98870008 5 ram-IsBytes lwl_address
      lwr_address refl

one_line-IsValid : IsValid one_line
one_line-IsValid = record { tagged = λ set. ground arith; synced = λ p k r d. ground arith }

-- A store across the boundary of two lines, and the load of what it leaves.
view-cstore_example :
    view (cstore 4 one_line 94 (λ i. i + 7)) 96
    ≡ (if leb 94 96 && ltb 96 (94 + 4) then 96 - 94 + 7 else view one_line 96)
view-cstore_example =
    view-cstore 4 one_line 94 (λ i. i + 7) 96 one_line-IsValid (omega arith) (omega arith)

cload-view_example :
    (cload 4 one_line 94 (λ _. 0)).0 1 ≡ (if ltb 1 4 then view one_line (94 + 1) else 0)
cload-view_example = cload-view 4 one_line 94 (λ _. 0) 1 one_line-IsValid (omega arith)

hit_wb_inval-IsFlushed_example : IsFlushed one_line 70 (hit_wb_inval one_line 70)
hit_wb_inval-IsFlushed_example = hit_wb_inval-IsFlushed one_line 70 one_line-IsValid

-- `cache 0x15, 70($4)`: the write-back and invalidate of a line of the data cache.
exec_cache-IsSeenAlike_example : IsSeenAlike one_line ((exec_cache 0xBC950046 (cpu, one_line)).1)
exec_cache-IsSeenAlike_example =
    exec_cache-IsSeenAlike 0xBC950046 cpu one_line one_line-IsValid (omega arith)
