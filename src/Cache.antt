-- ===== src/Cache.antt =====
-- The write-back cache of cache_model.hh: 4096 lines of 32 bytes, one for each set, over the DRAM.
-- The counters of events and the probes of one watched line are left out.
pub mod View
pub mod Fill
pub mod Laws
pub mod Flush
use interp_mips.Prelude.{
  ℕ, zero, suc, ◌+◌, ◌-◌, ◌*◌, ◌/◌, ◌%◌, Bool, true, false, ◌&&◌, if◌then◌else◌, ◌==◌, u8, u32,
  update,
}

pub record Cline : Type 0 where
  pub valid : Bool
  pub dirty : Bool
  pub tag : ℕ
  pub data_of : ℕ → ℕ

pub record Cache : Type 0 where
  pub dram : ℕ → ℕ
  pub l1 : ℕ → Cline

abbrev pub l1_line : ℕ
l1_line = 32

abbrev pub l1_sets : ℕ
l1_sets = 4096

abbrev pub set_of : ℕ → ℕ
set_of pa = pa / l1_line % l1_sets

abbrev pub tag_of : ℕ → ℕ
tag_of pa = pa / l1_line / l1_sets

abbrev pub line_base : ℕ → ℕ → ℕ
line_base tag set = u32 ((tag * l1_sets + set) * l1_line)

-- The loop that writes the first n bytes of a line to the DRAM.
unfoldable pub write_line : ℕ → (ℕ → ℕ) → ℕ → (ℕ → ℕ) → ℕ → ℕ
write_line zero dram base bytes = dram
write_line (suc n) dram base bytes =
    update (write_line n dram base bytes) (u32 (base + n)) (bytes n)

unfoldable pub written_back : Cache → ℕ → ℕ → ℕ
unfolding write_line
written_back c set =
    let l = c.l1 set in
    if l.valid && l.dirty then write_line l1_line c.dram (line_base l.tag set) l.data_of else c.dram

-- The line of an address, resident.
abbrev pub resident : Cache → ℕ → Bool
resident c pa = let l = c.l1 (set_of pa) in l.valid && (l.tag == tag_of pa)

unfoldable pub fill : Cache → ℕ → Cache
unfolding written_back
fill c pa =
    let d = written_back c (set_of pa) in
    let base = pa - pa % l1_line in
    if resident c pa then c else record {
      dram = d;
      l1 =
          update c.l1 (set_of pa)
            (record { valid = true; dirty = false; tag = tag_of pa; data_of = λ i. d (base + i) });
    }

-- One byte of a load or a store.
unfoldable pub load_byte : Cache → ℕ → ℕ × Cache
unfolding fill
load_byte c pa = let c' = fill c pa in ((c'.l1 (set_of pa)).data_of (pa % l1_line), c')

-- A byte into the resident line of its address.
unfoldable pub put_byte : Cache → ℕ → ℕ → Cache
put_byte c pa v =
    let l = c.l1 (set_of pa) in
    record c {
      l1 =
          update c.l1 (set_of pa)
            (record l { dirty = true; data_of = update l.data_of (pa % l1_line) v });
    }

unfoldable pub store_byte : Cache → ℕ → ℕ → Cache
unfolding fill put_byte
store_byte c pa v = put_byte (fill c pa) pa v

-- `cstore`: the n bytes of a source, the first one first.
unfoldable pub cstore : ℕ → Cache → ℕ → (ℕ → ℕ) → Cache
unfolding store_byte
cstore zero c pa src = c
cstore (suc n) c pa src = store_byte (cstore n c pa src) (u32 (pa + n)) (src n)

-- `cload`: the bytes it leaves in a buffer, and the cache.
unfoldable pub cload : ℕ → Cache → ℕ → (ℕ → ℕ) → (ℕ → ℕ) × Cache
unfolding load_byte
cload zero c pa dst = (dst, c)
cload (suc n) c pa dst =
    let (d, c') = cload n c pa dst in
    let (v, c'') = load_byte c' (u32 (pa + n)) in (update d n v, c'')

unfoldable pub wb : Cache → ℕ → Cache
unfolding written_back
wb c set =
    let l = c.l1 set in
    record {
      dram = written_back c set;
      l1 = if l.valid && l.dirty then update c.l1 set (record l { dirty = false }) else c.l1;
    }

-- The line of a set, dropped.
abbrev pub dropped : Cache → ℕ → Cache
dropped c set = record c { l1 = update c.l1 set (record (c.l1 set) { valid = false }) }

unfoldable pub hit_wb : Cache → ℕ → Cache
unfolding wb
hit_wb c pa = if resident c pa then wb c (set_of pa) else c

unfoldable pub hit_inval : Cache → ℕ → Cache
hit_inval c pa = if resident c pa then dropped c (set_of pa) else c

unfoldable pub hit_wb_inval : Cache → ℕ → Cache
unfolding wb
hit_wb_inval c pa = if resident c pa then dropped (wb c (set_of pa)) (set_of pa) else c

unfoldable pub index_inval : Cache → ℕ → Cache
index_inval c i = if (c.l1 (set_of i)).valid then dropped c (set_of i) else c

unfoldable pub index_wb_inval : Cache → ℕ → Cache
unfolding wb
index_wb_inval c i =
    let c' = wb c (set_of i) in if (c'.l1 (set_of i)).valid then dropped c' (set_of i) else c'

-- A speculative fill, and a write of a device that drops the copy.
unfoldable pub spec_fill : Cache → ℕ → Cache
unfolding fill
spec_fill c pa = if resident c pa then c else fill c pa

unfoldable pub snoop_inval : Cache → ℕ → Cache
snoop_inval c pa = if resident c pa then dropped c (set_of pa) else c
