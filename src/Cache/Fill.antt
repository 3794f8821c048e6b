-- ===== src/Cache/Fill.antt =====
-- `fill` of cache_model.hh, and the bytes that are read and written through it.
use interp_mips.Prelude.{
  ℕ, ◌+◌, ◌-◌, ◌/◌, ◌%◌, ◌^◌, ◌<◌, ◌≡◌, arith, true, false, if◌then◌else◌, ◌==◌, refl, ◌∙◌, ap,
  Bool-cases, inl, inr,
}
use interp_mips.Cache.{
  Cache, l1_line, set_of, tag_of, written_back, resident, fill, load_byte, put_byte, store_byte,
}
use interp_mips.Cache.View.{view, IsTagged, IsSynced, IsValid, written_back-view}

address_in_line : (pa p : ℕ) → (p / 32 == pa / 32) ≡ true → pa - pa % 32 + p % 32 ≡ p
address_in_line pa p q = ground arith

fill-IsTagged : (c : Cache) (pa : ℕ) → pa < 2 ^ 32 → IsTagged c → IsTagged (fill c pa)
unfolding fill
fill-IsTagged c pa h t set = ground (arith, t set)

fill-resident : (c : Cache) (pa : ℕ) → resident (fill c pa) pa ≡ true
unfolding fill
fill-resident c pa = ground arith

module _ (c : Cache) (pa : ℕ) (h : pa < 2 ^ 32) (t : IsTagged c) (y : IsSynced c) where
  fill_hit : resident c pa ≡ true → fill c pa ≡ c
  unfolding fill
  fill_hit e = rw e refl

  filled_line :
      (p : ℕ)
      → (p / 32 == pa / 32) ≡ true
      → resident c pa ≡ false
      → view (fill c pa) p ≡ written_back c (set_of pa) (pa - pa % 32 + p % 32)
  unfolding fill
  filled_line p q e = ground arith

  tag_differs :
      (p : ℕ)
      → (p / 32 == pa / 32) ≡ false
      → (set_of p == set_of pa) ≡ true
      → (tag_of pa == tag_of p) ≡ false
  tag_differs p q u = ground arith

  other_tag :
      (p : ℕ)
      → (set_of p == set_of pa) ≡ true
      → (tag_of pa == tag_of p) ≡ false
      → resident c pa ≡ false
      → view (fill c pa) p ≡ written_back c (set_of pa) p
  unfolding fill
  other_tag p u v e = rw (e, u, v) refl

  other_set :
      (p : ℕ)
      → (set_of p == set_of pa) ≡ false
      → resident c pa ≡ false
      → view (fill c pa) p ≡ (if resident c p then view c p else written_back c (set_of pa) p)
  unfolding fill
  other_set p u e = rw (e, u) (ground arith)

  -- Filling a line leaves what the processor sees.
  view-fill : (p : ℕ) → p < 2 ^ 32 → view (fill c pa) p ≡ view c p
  view-fill p k =
      let e = written_back-view c (set_of pa) p t y (omega arith) k in
      elim (Bool-cases (resident c pa)) [
        | inl r ↦ ap (λ d. view d p) (fill_hit r)
        | inr r ↦ elim (Bool-cases (p / 32 == pa / 32)) [
          | inl q ↦
              filled_line p q r
              ∙ ap (written_back c (set_of pa)) (address_in_line pa p q)
              ∙ ground (arith, e, q)
          | inr q ↦ elim (Bool-cases (set_of p == set_of pa)) [
            | inl u ↦ other_tag p u (tag_differs p q u) r ∙ ground (arith, e, u)
            | inr u ↦ other_set p u r ∙ ground (arith, e, u)
          ]
        ]
      ]

  -- After a miss, the line of pa is a copy of the DRAM, and the other sets are as before.
  missed_dram : resident c pa ≡ false → (fill c pa).dram ≡ written_back c (set_of pa)
  unfolding fill
  missed_dram e = rw e refl

  same_line :
      (p : ℕ)
      → (set_of p == set_of pa) ≡ true
      → (tag_of pa == tag_of p) ≡ true
      → pa - pa % 32 + p % 32 ≡ p
  same_line p u v = ground arith

  not_filled :
      (p : ℕ)
      → resident c pa ≡ false
      → (set_of p == set_of pa) ≡ true
      → (tag_of pa == tag_of p) ≡ false
      → resident (fill c pa) p ≡ false
  unfolding fill
  not_filled p e u v = rw (e, u, v) refl

  filled_tag :
      (p : ℕ)
      → resident c pa ≡ false
      → (set_of p == set_of pa) ≡ true
      → resident (fill c pa) p ≡ true
      → pa - pa % 32 + p % 32 ≡ p
  filled_tag p e u r = elim (Bool-cases (tag_of pa == tag_of p)) [
    | inl v ↦ same_line p u v
    | inr v ↦ ground (arith, not_filled p e u v, r)
  ]

  missed_line :
      (p : ℕ)
      → resident c pa ≡ false
      → (set_of p == set_of pa) ≡ true
      → resident (fill c pa) p ≡ true
      → ((fill c pa).l1 (set_of p)).data_of (p % l1_line) ≡ (fill c pa).dram p
  unfolding fill
  missed_line p e u r = let q = filled_tag p e u r in ground arith

  missed_other :
      (p : ℕ)
      → resident c pa ≡ false
      → (set_of p == set_of pa) ≡ false
      → (fill c pa).l1 (set_of p) ≡ c.l1 (set_of p)
  unfolding fill
  missed_other p e u = rw (e, u) refl

  fill-IsSynced : IsSynced (fill c pa)
  fill-IsSynced p k r d =
      let e = written_back-view c (set_of pa) p t y (omega arith) k in
      elim (Bool-cases (resident c pa)) [
        | inl a ↦ ground (arith, fill_hit a, y p k, r, d)
        | inr a ↦ elim (Bool-cases (set_of p == set_of pa)) [
          | inl u ↦ missed_line p a u r
          | inr u ↦ ground (arith, missed_other p a u, missed_dram a, y p k, r, d, e, u)
        ]
      ]

stored_view :
    (f : Cache) (pa v p : ℕ)
    → resident f pa ≡ true
    → view (put_byte f pa v) p ≡ (if p == pa then v else view f p)
unfolding put_byte
stored_view f pa v p r = ground arith

put_byte-IsTagged : (f : Cache) (pa v : ℕ) → IsTagged f → IsTagged (put_byte f pa v)
unfolding put_byte
put_byte-IsTagged f pa v t set = ground (arith, t set)

put_byte-IsSynced : (f : Cache) (pa v : ℕ) → IsSynced f → IsSynced (put_byte f pa v)
unfolding put_byte
put_byte-IsSynced f pa v y p k r d = ground (arith, y p k)

module _ (c : Cache) (pa : ℕ) (h : pa < 2 ^ 32) (v : IsValid c) where
  fill-IsValid : IsValid (fill c pa)
  fill-IsValid = record {
    tagged = fill-IsTagged c pa h v.tagged;
    synced = fill-IsSynced c pa h v.tagged v.synced;
  }

  pub load_byte-IsValid : IsValid (load_byte c pa).1
  unfolding load_byte
  load_byte-IsValid = fill-IsValid

  pub load_byte-view : (load_byte c pa).0 ≡ view c pa
  unfolding load_byte
  load_byte-view = ground (arith, fill-resident c pa, view-fill c pa h v.tagged v.synced pa h)

  pub view-load_byte : (p : ℕ) → p < 2 ^ 32 → view (load_byte c pa).1 p ≡ view c p
  unfolding load_byte
  view-load_byte = view-fill c pa h v.tagged v.synced

  pub store_byte-IsValid : (x : ℕ) → IsValid (store_byte c pa x)
  unfolding store_byte
  store_byte-IsValid x = record {
    tagged = put_byte-IsTagged (fill c pa) pa x fill-IsValid.tagged;
    synced = put_byte-IsSynced (fill c pa) pa x fill-IsValid.synced;
  }

  pub view-store_byte :
      (x p : ℕ) → p < 2 ^ 32 → view (store_byte c pa x) p ≡ (if p == pa then x else view c p)
  unfolding store_byte
  view-store_byte x p k =
      stored_view (fill c pa) pa x p (fill-resident c pa)
      ∙ ap (λ w. if p == pa then x else w) (view-fill c pa h v.tagged v.synced p k)
