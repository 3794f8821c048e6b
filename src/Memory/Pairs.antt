-- ===== src/Memory/Pairs.antt =====
-- Pairs of instructions at one address of the memory.
use interp_mips.Prelude.{ℕ, ◌+◌, ◌-◌, ◌%◌, ◌^◌, ◌<◌, ◌≡◌, arith, Bool, false, some, ◌∙◌, ap, sext32}
use interp_mips.Cpu.{State}
use interp_mips.Tlb.Entry.{TlbOp, load, store}
use interp_mips.Tlb.Translate.{unmapped, found, va_translate}
use interp_mips.Tlb.Kept.{va_translate-IsKept}
use interp_mips.Alu.Write.{set_gpr}
use interp_mips.Memory.Sparse.{Devices, SparseMem, get, set, read_le, write_le, bswap32}
use interp_mips.Memory.Access.{address, field_rt, load_value, store_value, lw, sw}
use interp_mips.Memory.Merge.{lwl_merge, lwr_merge}
use interp_mips.Memory.Unaligned.{lwl, lwr}
use interp_mips.Memory.Joined.{IsBytes, word_at, join_words}
use interp_mips.Memory.RoundTrip.{read_le-write_le_four, load_merged-unmapped}

bswap32_back : (x : ℕ) → sext32 (bswap32 (bswap32 x)) ≡ sext32 x
bswap32_back x = ground arith

got_gpr : (t : State) (c : Bool) (k v : ℕ) → (set_gpr (found t load c) k v).gpr k ≡ v
unfolding set_gpr
got_gpr t c k v = ground arith

bswap32_below : (x : ℕ) → bswap32 x < 2 ^ 32
bswap32_below x = ground arith

-- An access of the virtual address finds its page, at the physical address pa.
abbrev pub Reaches : State → ℕ → TlbOp → ℕ → Type 0
Reaches s va op pa = ((va_translate s va op).0.tlb_fault ≡ false) × ((va_translate s va op).1 ≡ pa)

module _ (V : Devices) where
  stored :
      (s : State) (m : SparseMem V) (inst pa : ℕ)
      → m.route_devices ≡ false
      → Reaches s (address inst s) store pa
      → pa % 4 ≡ 0
      → (sw V inst (s, m)).1
        ≡ record m { bytes = write_le 4 m.bytes pa (bswap32 (s.gpr (field_rt inst))) }
  unfolding sw store_value set
  stored s m inst pa r e al =
      let k = va_translate-IsKept s (address inst s) store (e.0) in
      simp (e.0, e.1, al, r)
        (ap
          (λ g. record m {
            bytes = write_le 4 m.bytes pa (bswap32 (g (field_rt inst)));
            route_devices = false;
          })
          k.gpr)

  loaded :
      (s : State) (m : SparseMem V) (inst pa : ℕ)
      → m.route_devices ≡ false
      → Reaches s (address inst s) load pa
      → pa % 4 ≡ 0
      → (lw V inst (s, m)).0.gpr (field_rt inst) ≡ sext32 (bswap32 (read_le 4 m.bytes pa))
  unfolding lw load_value get set_gpr
  loaded s m inst pa r e al = simp (e.0, e.1, al, r) (ground arith)

  -- An SW and then an LW, each at an address that is translated without a fault to the same
  -- aligned physical address, in an unmapped segment or through the TLB, cached or not, the
  -- two in the same manner or not, leave in the loaded register the low word of the stored
  -- one, sign-extended, where no device is routed.
  pub lw-sw :
      (s : State) (m : SparseMem V) (inst1 inst2 pa : ℕ)
      → m.route_devices ≡ false
      → Reaches s (address inst1 s) store pa
      → Reaches (sw V inst1 (s, m)).0 (address inst2 (sw V inst1 (s, m)).0) load pa
      → pa % 4 ≡ 0
      → (lw V inst2 (sw V inst1 (s, m))).0.gpr (field_rt inst2) ≡ sext32 (s.gpr (field_rt inst1))
  lw-sw s m inst1 inst2 pa r e1 e2 al =
      let x = bswap32 (s.gpr (field_rt inst1)) in
      let w = stored s m inst1 pa r e1 al in
      loaded (sw V inst1 (s, m)).0 (sw V inst1 (s, m)).1 inst2 pa (ap (λ t. t.route_devices) w ∙ r)
        e2 al
      ∙ ap (λ t. sext32 (bswap32 (read_le 4 t.bytes pa))) w
      ∙ ap (λ v. sext32 (bswap32 v))
          (read_le-write_le_four m.bytes pa x (bswap32_below (s.gpr (field_rt inst1))))
      ∙ bswap32_back (s.gpr (field_rt inst1))

module _ (V : Devices) (s : State) (m : SparseMem V) (c : Bool) (f : s.tlb_fault ≡ false)
    (r : m.route_devices ≡ false) where
  -- The register and the state after `lwl`.
  abbrev lwl_value : ℕ → ℕ → ℕ
  lwl_value inst1 pa =
      lwl_merge (pa % 4) (bswap32 (read_le 4 m.bytes (pa - pa % 4))) (s.gpr (field_rt inst1))

  abbrev left : ℕ → ℕ → State
  left inst1 pa = set_gpr (found s load c) (field_rt inst1) (lwl_value inst1 pa)

  left_fault : (inst1 pa : ℕ) → (left inst1 pa).tlb_fault ≡ false
  unfolding set_gpr
  left_fault inst1 pa = f

  merged :
      (inst1 inst2 pa : ℕ)
      → IsBytes m.bytes
      → unmapped (address inst2 (left inst1 pa)) ≡ some (pa + 3, c)
      → field_rt inst2 ≡ field_rt inst1
      → (lwr V inst2 (left inst1 pa, m)).0.gpr (field_rt inst2) ≡ sext32 (word_at m.bytes pa)
  unfolding lwr
  merged inst1 inst2 pa b e q =
      let t = left inst1 pa in
      rw
        (load_merged-unmapped V t m 4 (λ v. bswap32 v) lwr_merge inst2 (pa + 3) c e
          (left_fault inst1 pa) r)
        (got_gpr t c (field_rt inst2) (
            lwr_merge ((pa + 3) % 4) (bswap32 (read_le 4 m.bytes (pa + 3 - (pa + 3) % 4)))
              (t.gpr (field_rt inst2)))
          ∙ ap (lwr_merge ((pa + 3) % 4) (bswap32 (read_le 4 m.bytes (pa + 3 - (pa + 3) % 4))))
              (rw q (got_gpr s c (field_rt inst1) (lwl_value inst1 pa)))
          ∙ join_words m.bytes b pa (s.gpr (field_rt inst1)))

  -- An LWL at an unmapped address and an LWR three bytes further into the same register, with
  -- no device routed, no fault pending and a memory of bytes, leave in the register the big-
  -- endian word at the address, sign-extended, at each of the four alignments.
  pub lwr-lwl :
      (inst1 inst2 pa : ℕ)
      → IsBytes m.bytes
      → unmapped (address inst1 s) ≡ some (pa, c)
      → unmapped (address inst2 (lwl V inst1 (s, m)).0) ≡ some (pa + 3, c)
      → field_rt inst2 ≡ field_rt inst1
      → (lwr V inst2 (lwl V inst1 (s, m))).0.gpr (field_rt inst2) ≡ sext32 (word_at m.bytes pa)
  unfolding lwl lwr
  lwr-lwl inst1 inst2 pa b e1 e2 q =
      let e = load_merged-unmapped V s m 4 (λ v. bswap32 v) lwl_merge inst1 pa c e1 f r in
      rw e (merged inst1 inst2 pa b (rw e at e2) q)
