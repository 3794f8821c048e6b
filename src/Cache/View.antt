-- ===== src/Cache/View.antt =====
-- The memory that the processor sees through the cache of cache_model.hh.
use interp_mips.Prelude.{
  ℕ, zero, suc, ◌+◌, ◌-◌, ◌*◌, ◌/◌, ◌%◌, ◌^◌, ◌<◌, ◌≤◌, ◌≡◌, arith, true, false, ◌&&◌,
  if◌then◌else◌, ◌==◌, ltb, leb, refl, ◌∙◌, Bool-cases, inl, inr, u32,
}
use interp_mips.Cache.{
  Cache, l1_line, l1_sets, set_of, line_base, write_line, written_back, resident,
}

abbrev pub view : Cache → ℕ → ℕ
view c p = if resident c p then (c.l1 (set_of p)).data_of (p % l1_line) else c.dram p

-- A tag is that of a 32-bit address.
abbrev pub IsTagged : Cache → Type 0
IsTagged c = (set : ℕ) → (c.l1 set).tag < 2 ^ 15

write_line_lem :
    (n : ℕ) (dram : ℕ → ℕ) (base : ℕ) (bytes : ℕ → ℕ) (p : ℕ)
    → n ≤ 32
    → base + 32 ≤ 2 ^ 32
    → write_line n dram base bytes p
      ≡ (if leb base p && ltb p (base + n) then bytes (p - base) else dram p)
unfolding write_line
write_line_lem zero dram base bytes p h k = ground arith
write_line_lem (suc n) dram base bytes p h k =
    ground (arith, write_line_lem n dram base bytes p (omega arith) k)

-- The bytes of line number L.
in_line :
    (L p y : ℕ) (f : ℕ → ℕ)
    → L < 2 ^ 27
    → (if leb (u32 (L * 32)) p && ltb p (u32 (L * 32) + 32) then f (p - u32 (L * 32)) else y)
      ≡ (if p / 32 == L then f (p % 32) else y)
in_line L p y f h = elim (Bool-cases (p / 32 == L)) [ inl e ↦ ground arith | inr e ↦ ground arith ]

line_below : (tag set : ℕ) → tag < 2 ^ 15 → set < l1_sets → tag * l1_sets + set < 2 ^ 27
line_below tag set h k = omega arith

base_below : (L : ℕ) → L < 2 ^ 27 → u32 (L * 32) + 32 ≤ 2 ^ 32
base_below L h = omega arith

-- A line written back is seen in the DRAM where the line is resident, and nowhere else.
pub written_back_lem :
    (c : Cache) (set p : ℕ)
    → IsTagged c
    → set < l1_sets
    → written_back c set p ≡ (
        if (c.l1 set).valid && (c.l1 set).dirty && (p / 32 == (c.l1 set).tag * l1_sets + set)
        then (c.l1 set).data_of (p % l1_line)
        else c.dram p)
unfolding written_back
written_back_lem c set p t h =
    let l = c.l1 set in
    let L = l.tag * l1_sets + set in
    let below = line_below l.tag set (t set) h in
    elim (Bool-cases (l.valid && l.dirty)) [
      | inl e ↦ rw e (
          write_line_lem 32 c.dram (line_base l.tag set) l.data_of p (omega arith)
            (base_below L below)
          ∙ in_line L p (c.dram p) l.data_of below)
      | inr e ↦ rw e refl
    ]

-- A clean resident line holds what the DRAM holds.
abbrev pub IsSynced : Cache → Type 0
IsSynced c =
    (p : ℕ)
    → p < 2 ^ 32
    → resident c p ≡ true
    → (c.l1 (set_of p)).dirty ≡ false
    → (c.l1 (set_of p)).data_of (p % l1_line) ≡ c.dram p

-- The DRAM after a set is written back holds what the processor sees in that set.
pub written_back-view :
    (c : Cache) (set p : ℕ)
    → IsTagged c
    → IsSynced c
    → set < l1_sets
    → p < 2 ^ 32
    → written_back c set p ≡ (if set_of p == set then view c p else c.dram p)
written_back-view c set p t y h k = rw (written_back_lem c set p t h) (ground (arith, y p k))

-- A cache with tags of 32-bit addresses whose clean lines agree with the DRAM.
pub record IsValid (c : Cache) : Type 0 where
  pub tagged : IsTagged c
  pub synced : IsSynced c
