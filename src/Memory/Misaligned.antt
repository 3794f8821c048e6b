-- ===== src/Memory/Misaligned.antt =====
-- The loads and stores of interpret.cc at an unmapped address that is not aligned.
use interp_mips.Prelude.{ℕ, ◌%◌, ◌^◌, ◌<◌, ◌≡◌, ◌≢◌, refl, arith, Bool, true, false, some, sext32}
use interp_mips.Cpu.{State, cpr0_cause, sr_exl}
use interp_mips.Exception.{raise_adel, raise_ades, raise_common, set_exc_pc}
use interp_mips.Exception.Precise.{IsRaised, raise_common-IsRaised}
use interp_mips.Tlb.Entry.{load, store}
use interp_mips.Tlb.Translate.{unmapped, found}
use interp_mips.Memory.Sparse.{Devices, SparseMem, bswap32}
use interp_mips.Memory.Access.{Machine, address, load_value, store_value, lw, load_linked, arm}
use interp_mips.Memory.RoundTrip.{va_translate-unmapped}

-- The access ended in the exception, and left the memory and the devices alone.
pub record IsRefused (V : Devices) (code : ℕ) (s : State) (m : SparseMem V) (e : Machine V)
    : Type 0 where
  pub raised : IsRaised code s e.0
  pub memory : e.1 ≡ m

module _ (V : Devices) (s : State) (m : SparseMem V) (c : Bool) (f : s.tlb_fault ≡ false) where
  load_value-misaligned :
      (n : ℕ) (convert : ℕ → ℕ) (inst pa : ℕ)
      → unmapped (address inst s) ≡ some (pa, c)
      → pa % n ≢ 0
      → load_value V n convert inst (s, m) ≡ (raise_adel (found s load c), m)
  unfolding load_value
  load_value-misaligned n convert inst pa e ne =
      rw (va_translate-unmapped V s m (address inst s) pa c load e) (ground arith)

  store_value-misaligned :
      (n : ℕ) (convert : ℕ → ℕ) (inst pa : ℕ)
      → unmapped (address inst s) ≡ some (pa, c)
      → pa % n ≢ 0
      → store_value V n convert inst (s, m) ≡ (raise_ades (found s store c), m)
  unfolding store_value
  store_value-misaligned n convert inst pa e ne =
      rw (va_translate-unmapped V s m (address inst s) pa c store e) (ground arith)

  adel-IsRaised :
      s.cpr0 cpr0_cause < 2 ^ 32
      → sr_exl s ≡ false
      → IsRaised 4 (found s load c) (raise_adel (found s load c))
  unfolding raise_adel
  adel-IsRaised w x = raise_common-IsRaised (found s load c) 4 (omega arith) w x

  ades-IsRaised :
      s.cpr0 cpr0_cause < 2 ^ 32
      → sr_exl s ≡ false
      → IsRaised 5 (found s store c) (raise_ades (found s store c))
  unfolding raise_ades
  ades-IsRaised w x = raise_common-IsRaised (found s store c) 5 (omega arith) w x

  armed : (t : State) → t.tlb_fault ≡ false → (arm V (t, m)).0.ll_armed ≡ true
  armed t h = ground arith

  adel-fault : (raise_adel (found s load c)).tlb_fault ≡ false
  unfolding raise_adel raise_common set_exc_pc
  adel-fault = ground arith

  -- An LL at an unmapped address that is not a multiple of 4, with no fault pending, leaves
  -- the load-link armed, although the address error that it raises clears it.
  pub load_linked-rearms :
      (inst pa : ℕ)
      → unmapped (address inst s) ≡ some (pa, c)
      → pa % 4 ≢ 0
      → (load_linked V inst (s, m)).0.ll_armed ≡ true
  unfolding load_linked lw
  load_linked-rearms inst pa e ne =
      rw (load_value-misaligned 4 (λ v. sext32 (bswap32 v)) inst pa e ne)
        (armed (raise_adel (found s load c)) adel-fault)

  -- An aligned load of n bytes at an unmapped address that n does not divide, with no fault
  -- pending, EXL clear and a 32-bit Cause, raises an address error as a general exception of
  -- code 4 and changes neither the memory nor a device.
  pub load_value-IsRefused :
      (n : ℕ) (convert : ℕ → ℕ) (inst pa : ℕ)
      → unmapped (address inst s) ≡ some (pa, c)
      → pa % n ≢ 0
      → s.cpr0 cpr0_cause < 2 ^ 32
      → sr_exl s ≡ false
      → IsRefused V 4 (found s load c) m (load_value V n convert inst (s, m))
  load_value-IsRefused n convert inst pa e ne w x =
      rw (load_value-misaligned n convert inst pa e ne)
        (record { raised = adel-IsRaised w x; memory = refl })

  -- An aligned store of n bytes at an unmapped address that n does not divide, with no fault
  -- pending, EXL clear and a 32-bit Cause, raises an address error as a general exception of
  -- code 5 and changes neither the memory nor a device.
  pub store_value-IsRefused :
      (n : ℕ) (convert : ℕ → ℕ) (inst pa : ℕ)
      → unmapped (address inst s) ≡ some (pa, c)
      → pa % n ≢ 0
      → s.cpr0 cpr0_cause < 2 ^ 32
      → sr_exl s ≡ false
      → IsRefused V 5 (found s store c) m (store_value V n convert inst (s, m))
  store_value-IsRefused n convert inst pa e ne w x =
      rw (store_value-misaligned n convert inst pa e ne)
        (record { raised = ades-IsRaised w x; memory = refl })
