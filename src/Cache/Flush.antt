-- ===== src/Cache/Flush.antt =====
-- The operations of cache_model.hh that write a line back or drop it, and the DRAM.
use interp_mips.Prelude.{
  ℕ, ◌/◌, ◌^◌, ◌<◌, ◌≡◌, arith, true, false, if◌then◌else◌, ◌==◌, refl, ◌∙◌, ap, Bool-cases, inl,
  inr,
}
use interp_mips.Cache.{Cache, set_of, written_back, resident, wb, hit_wb_inval, hit_inval, dropped}
use interp_mips.Cache.View.{view, IsValid, written_back-view}

-- After a line is written back and dropped, the processor sees what it saw, the DRAM holds it on
-- the line, and no copy is left.
pub record IsFlushed (c : Cache) (pa : ℕ) (after : Cache) : Type 0 where
  pub kept : (p : ℕ) → p < 2 ^ 32 → view after p ≡ view c p
  pub visible : (p : ℕ) → p < 2 ^ 32 → p / 32 ≡ pa / 32 → after.dram p ≡ view c p
  pub gone : resident after pa ≡ false

module _ (c : Cache) (pa : ℕ) where
  pub wb-dropped-view :
      (p : ℕ)
      → view (dropped (wb c (set_of pa)) (set_of pa)) p ≡ (
          if set_of p == set_of pa
          then written_back c (set_of pa) p
          else if resident c p
          then view c p
          else written_back c (set_of pa) p)
  unfolding wb
  wb-dropped-view p = elim (Bool-cases (set_of p == set_of pa)) [
    | inl u ↦ ground (arith, u)
    | inr u ↦ ground (arith, u)
  ]

  wb-dropped-gone : resident (dropped (wb c (set_of pa)) (set_of pa)) pa ≡ false
  wb-dropped-gone = ground arith

  wb-dram : (dropped (wb c (set_of pa)) (set_of pa)).dram ≡ written_back c (set_of pa)
  unfolding wb
  wb-dram = refl

  flush_hit : resident c pa ≡ true → hit_wb_inval c pa ≡ dropped (wb c (set_of pa)) (set_of pa)
  unfolding hit_wb_inval
  flush_hit e = rw e refl

  flush_miss : resident c pa ≡ false → hit_wb_inval c pa ≡ c
  unfolding hit_wb_inval
  flush_miss e = rw e refl

  view_miss : (p : ℕ) → resident c pa ≡ false → p / 32 ≡ pa / 32 → c.dram p ≡ view c p
  view_miss p e q = ground arith

module _ (c : Cache) (pa : ℕ) (v : IsValid c) where
  written :
      (p : ℕ)
      → p < 2 ^ 32
      → written_back c (set_of pa) p ≡ (if set_of p == set_of pa then view c p else c.dram p)
  written p k = written_back-view c (set_of pa) p v.tagged v.synced (omega arith) k

  IsFlushed-hit : IsFlushed c pa (dropped (wb c (set_of pa)) (set_of pa))
  IsFlushed-hit = record {
    kept = λ p k. wb-dropped-view c pa p ∙ ground (arith, written p k);
    visible = λ p k q. ap (λ d. d p) (wb-dram c pa) ∙ ground (arith, written p k);
    gone = wb-dropped-gone c pa;
  }

  -- The write-back and invalidate of an address in a valid cache, its line resident or not,
  -- keeps what the processor sees, leaves it in the DRAM on the line of the address, and
  -- leaves no copy of that line.
  pub hit_wb_inval-IsFlushed : IsFlushed c pa (hit_wb_inval c pa)
  hit_wb_inval-IsFlushed = elim (Bool-cases (resident c pa)) [
    | inl e ↦ rw (flush_hit c pa e) IsFlushed-hit
    | inr e ↦
        rw (flush_miss c pa e)
          (record { kept = λ p k. refl; visible = λ p k q. view_miss c pa p e q; gone = e })
  ]

-- After an invalidate of the line of an address the processor sees the DRAM on the whole line,
-- whatever the cache held.
pub view-hit_inval : (c : Cache) (pa p : ℕ) → p / 32 ≡ pa / 32 → view (hit_inval c pa) p ≡ c.dram p
unfolding hit_inval
view-hit_inval c pa p q = ground arith
