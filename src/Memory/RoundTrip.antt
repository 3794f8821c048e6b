-- ===== src/Memory/RoundTrip.antt =====
-- The bytes of a word in the memory, and the loads of interpret.cc that merge, at an unmapped
-- address where no device is routed.
use interp_mips.Prelude.{ℕ, ◌-◌, ◌%◌, ◌^◌, ◌<◌, ◌≡◌, arith, Bool, false, some}
use interp_mips.Cpu.{State}
use interp_mips.Tlb.Entry.{TlbOp, load}
use interp_mips.Tlb.Translate.{unmapped, va_translate, found}
use interp_mips.Alu.Write.{set_gpr}
use interp_mips.Memory.Sparse.{Devices, SparseMem, get, read_le, write_le}
use interp_mips.Memory.Access.{address, field_rt}
use interp_mips.Memory.Unaligned.{load_merged}

-- A read of four bytes gives back the word written there.
pub read_le-write_le_four : (f : ℕ → ℕ) (a v : ℕ) → v < 2 ^ 32 → read_le 4 (write_le 4 f a v) a ≡ v
unfolding read_le write_le
read_le-write_le_four f a v h = ground arith

module _ (V : Devices) (s : State) (m : SparseMem V) where
  pub va_translate-unmapped :
      (va pa : ℕ) (c : Bool) (op : TlbOp)
      → unmapped va ≡ some (pa, c)
      → va_translate s va op ≡ (found s op c, pa)
  unfolding va_translate
  va_translate-unmapped va pa c op e = rw e

  pub load_merged-unmapped :
      (n : ℕ) (order : ℕ → ℕ) (merge : ℕ → ℕ → ℕ → ℕ) (inst pa : ℕ) (c : Bool)
      → unmapped (address inst s) ≡ some (pa, c)
      → s.tlb_fault ≡ false
      → m.route_devices ≡ false
      → load_merged V n order merge inst (s, m) ≡ (
        set_gpr
            (found s load c)
            (field_rt inst)
            (merge (pa % n) (order (read_le n m.bytes (pa - pa % n))) (s.gpr (field_rt inst))),
        m,
      )
  unfolding load_merged get
  load_merged-unmapped n order merge inst pa c e f r =
      rw (va_translate-unmapped (address inst s) pa c load e) (ground arith)
