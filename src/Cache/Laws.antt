-- ===== src/Cache/Laws.antt =====
-- `cstore` and `cload` of cache_model.hh, and the memory that the processor sees.
use interp_mips.Prelude.{
  ℕ, zero, suc, ◌+◌, ◌-◌, ◌^◌, ◌<◌, ◌≤◌, ◌≡◌, arith, ◌&&◌, if◌then◌else◌, ltb, leb, refl, ◌∙◌, u32,
}
use interp_mips.Cache.{Cache, cstore, cload}
use interp_mips.Cache.View.{view, IsValid}
use interp_mips.Cache.Fill.{
  load_byte-IsValid, load_byte-view, view-load_byte, store_byte-IsValid, view-store_byte,
}

cstore-IsValid :
    (n : ℕ) (c : Cache) (pa : ℕ) (src : ℕ → ℕ) → IsValid c → IsValid (cstore n c pa src)
unfolding cstore
cstore-IsValid zero c pa src v = v
cstore-IsValid (suc n) c pa src v =
    store_byte-IsValid (cstore n c pa src) (u32 (pa + n)) (omega arith)
      (cstore-IsValid n c pa src v) (src n)

-- Storing n bytes through a valid cache, at an address from which they fit below 2 ^ 32,
-- changes what the processor sees at these n addresses, to the bytes of the source, and at no
-- other address, whichever lines are filled and written back on the way.
pub view-cstore :
    (n : ℕ) (c : Cache) (pa : ℕ) (src : ℕ → ℕ) (p : ℕ)
    → IsValid c
    → pa + n ≤ 2 ^ 32
    → p < 2 ^ 32
    → view (cstore n c pa src) p ≡ (if leb pa p && ltb p (pa + n) then src (p - pa) else view c p)
unfolding cstore
view-cstore zero c pa src p v h k = ground arith
view-cstore (suc n) c pa src p v h k =
    view-store_byte (cstore n c pa src) (u32 (pa + n)) (omega arith) (cstore-IsValid n c pa src v)
      (src n) p k
    ∙ ground (arith, view-cstore n c pa src p v (omega arith) k)

cload-IsValid :
    (n : ℕ) (c : Cache) (pa : ℕ) (dst : ℕ → ℕ) → IsValid c → IsValid (cload n c pa dst).1
unfolding cload
cload-IsValid zero c pa dst v = v
cload-IsValid (suc n) c pa dst v =
    load_byte-IsValid (cload n c pa dst).1 (u32 (pa + n)) (omega arith) (cload-IsValid n c pa dst v)

view-cload :
    (n : ℕ) (c : Cache) (pa : ℕ) (dst : ℕ → ℕ) (p : ℕ)
    → IsValid c
    → p < 2 ^ 32
    → view (cload n c pa dst).1 p ≡ view c p
unfolding cload
view-cload zero c pa dst p v k = refl
view-cload (suc n) c pa dst p v k =
    view-load_byte (cload n c pa dst).1 (u32 (pa + n)) (omega arith) (cload-IsValid n c pa dst v) p
      k
    ∙ view-cload n c pa dst p v k

-- Loading n bytes through a valid cache, from an address at which they fit below 2 ^ 32, leaves
-- in the buffer what the processor sees at the n addresses, and the rest of the buffer as it
-- was.
pub cload-view :
    (n : ℕ) (c : Cache) (pa : ℕ) (dst : ℕ → ℕ) (i : ℕ)
    → IsValid c
    → pa + n ≤ 2 ^ 32
    → (cload n c pa dst).0 i ≡ (if ltb i n then view c (pa + i) else dst i)
unfolding cload
cload-view zero c pa dst i v h = ground arith
cload-view (suc n) c pa dst i v h =
    let e =
      load_byte-view (cload n c pa dst).1 (u32 (pa + n)) (omega arith)
        (cload-IsValid n c pa dst v) in
    let e' = view-cload n c pa dst (u32 (pa + n)) v (omega arith) in
    ground (arith, e, e', cload-view n c pa dst i v (omega arith))
