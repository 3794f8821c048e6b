-- ===== src/Mc/Dma.antt =====
-- The GIO64 DMA of sgi_mc: `dma_translate` and the loops of `dma_perform`. Addresses are of 32 bits.
-- The Newport graphics are a record of their reads and writes.
use interp_mips.Prelude.{
  ℕ, zero, suc, ◌+◌, ◌-◌, ◌*◌, ◌/◌, ◌%◌, ◌^◌, Bool, ◌&&◌, ◌||◌, if◌then◌else◌, ◌==◌, ltb, leb, u8,
  u32, sub32, bits, is_set, set_bit, clear_bit, sext16, ◌<<<◌, ◌>>>◌,
}
use interp_mips.Memory.Sparse.{Devices, SparseMem, get, set, bswap32, bswap64}
use interp_mips.Mc.Registers.{SgiMc}

pub record Graphics : Type 1 where
  pub Np : Type 0
  pub attached : Bool
  pub np_read : Np → ℕ → ℕ × Np
  pub np_write : Np → ℕ → ℕ → Np

abbrev pub np_base : ℕ
np_base = 0x1f0f0000

abbrev pub np_size : ℕ
np_size = 0x2000

-- The entry e of the DMA TLB maps the 4 MB region of an address.
abbrev pub dma_hit : SgiMc → ℕ → ℕ → Bool
dma_hit c va e = va / 2 ^ 22 == bits (c.dma_tlb_hi e) 22 10

abbrev pub pte_at : SgiMc → ℕ → ℕ → ℕ
pte_at c va e = u32 (bits (c.dma_tlb_lo e) 6 16 <<< 12 + bits va 12 10 <<< 2)

-- `mem` one step of n bytes on, or back.
abbrev pub stepped : Bool → ℕ → ℕ → ℕ
stepped up mem n = if up then u32 (mem + n) else sub32 mem n

abbrev pub to_host : SgiMc → Bool
to_host c = is_set c.dma_mode 1

abbrev pub fill : SgiMc → Bool
fill c = is_set c.dma_mode 3

abbrev pub up : SgiMc → Bool
up c = is_set c.dma_mode 4

-- The bytes that a round moves, and those that are left after it.
abbrev pub round_len : ℕ → ℕ
round_len bytes = if ltb bytes 8 then bytes else 8

abbrev pub left_after : SgiMc → ℕ → ℕ
left_after c bytes =
    if to_host c && fill c then (if leb 4 bytes then bytes - 4 else 0) else bytes - round_len bytes

abbrev pub width : SgiMc → ℕ
width c = c.dma_size % 2 ^ 16

-- The bytes that are left for the next line: those of the count, where the zoom is 0.
abbrev pub next_bytes : SgiMc → ℕ → ℕ → ℕ
next_bytes c zoom bytes = if zoom == 0 then bytes else width c

-- The registers at the end of a transfer that left the address at `mem`.
unfoldable pub finished : SgiMc → ℕ → SgiMc
finished c mem = record c {
  dma_size = width c;
  dma_count = 0;
  dma_memadr = mem;
  dma_run = clear_bit (set_bit c.dma_run 3) 6;
  dma_cause = if is_set c.dma_ctl 4 then set_bit c.dma_cause 3 else c.dma_cause;
  dma_irq = c.dma_irq || is_set c.dma_ctl 4;
}

module _ (V : Devices) (G : Graphics) where
  open G use {Np, attached, np_read, np_write}

  abbrev pub World : Type 0
  World = SparseMem V × Np

  abbrev pub by_pte : ℕ → ℕ × SparseMem V → ℕ × SparseMem V
  by_pte va (v, m) = (u32 (bits (bswap32 v) 6 20 <<< 12 + va % 2 ^ 12), m)

  -- The first of the entries that hits; without one, the address itself.
  unfoldable pub dma_translate : SgiMc → SparseMem V → ℕ → ℕ × SparseMem V
  dma_translate c m va =
      if dma_hit c va 0
      then by_pte va (get V m 4 (pte_at c va 0))
      else if dma_hit c va 1
      then by_pte va (get V m 4 (pte_at c va 1))
      else if dma_hit c va 2
      then by_pte va (get V m 4 (pte_at c va 2))
      else if dma_hit c va 3
      then by_pte va (get V m 4 (pte_at c va 3))
      else (va, m)

  abbrev pub at_newport : ℕ → Bool
  at_newport gio = attached && (leb np_base gio && ltb gio (np_base + np_size))

  unfoldable pub dma_gio_read64 : World → ℕ → ℕ × World
  dma_gio_read64 (m, np) gio =
      let r = np_read np (gio - np_base) in
      let g = get V m 8 gio in
      if at_newport gio then (bswap64 (r.0), (m, r.1)) else (bswap64 (g.0), (g.1, np))

  unfoldable pub dma_gio_write64 : World → ℕ → ℕ → World
  dma_gio_write64 (m, np) gio v =
      if at_newport gio
      then (m, np_write np (gio - np_base) (bswap64 v))
      else (set V m 8 gio (bswap64 v), np)

  -- The n bytes of a word that go to memory from byte i of it on, and the address after them.
  unfoldable pub put_bytes : SgiMc → Bool → ℕ → ℕ → ℕ → ℕ → World → ℕ × World
  unfolding dma_translate
  put_bytes c up zero i d mem w = (mem, w)
  put_bytes c up (suc n) i d mem (m, np) =
      let (pa, m') = dma_translate c m mem in
      put_bytes c up n (i + 1) d (stepped up mem 1) (set V m' 1 pa (u8 (d >>> (56 - 8 * i))), np)

  -- The n bytes from memory, put in place in `d`, whose bytes from i on are zero.
  unfoldable pub take_bytes : SgiMc → Bool → ℕ → ℕ → ℕ → ℕ → World → ℕ × ℕ × World
  unfolding dma_translate
  take_bytes c up zero i d mem w = (d, mem, w)
  take_bytes c up (suc n) i d mem (m, np) =
      let (pa, m') = dma_translate c m mem in
      let (b, m'') = get V m' 1 pa in
      take_bytes c up n (i + 1) (d + b <<< (56 - 8 * i)) (stepped up mem 1) (m'', np)

  unfoldable pub move_fill : SgiMc → ℕ → World → ℕ × World
  unfolding dma_translate
  move_fill c mem (m, np) =
      let (pa, m') = dma_translate c m mem in
      (stepped (up c) mem 4, (set V m' 4 pa (bswap32 c.dma_gio_adr), np))

  unfoldable pub move_in : SgiMc → ℕ → ℕ → World → ℕ × World
  unfolding dma_gio_read64 put_bytes
  move_in c len mem w =
      let (d, w') = dma_gio_read64 w c.dma_gio_adr in put_bytes c (up c) len 0 d mem w'

  unfoldable pub move_out : SgiMc → ℕ → ℕ → World → ℕ × World
  unfolding dma_gio_write64 take_bytes
  move_out c len mem w =
      let (d, mem', w') = take_bytes c (up c) len 0 0 mem w in
      (mem', dma_gio_write64 w' c.dma_gio_adr d)

  -- One round of the innermost loop: the address and the world after it.
  unfoldable pub move_round : SgiMc → ℕ → ℕ → World → ℕ × World
  unfolding move_fill move_in move_out
  move_round c bytes mem w =
      if to_host c && fill c
      then move_fill c mem w
      else if to_host c
      then move_in c (round_len bytes) mem w
      else move_out c (round_len bytes) mem w

  -- The loop over the bytes of a line, on fuel.
  unfoldable pub bytes_loop : ℕ → SgiMc → ℕ → ℕ → World → ℕ × World
  unfolding move_round
  bytes_loop zero c bytes mem w = (mem, w)
  bytes_loop (suc n) c bytes mem w =
      let r = move_round c bytes mem w in
      let rest = bytes_loop n c (left_after c bytes) (r.0) (r.1) in
      if bytes == 0 then (mem, w) else rest

  -- The loop over the repetitions of a line; the first has `bytes` bytes, the others the width.
  unfoldable pub zoom_loop : ℕ → SgiMc → ℕ → ℕ → World → ℕ × World
  unfolding bytes_loop
  zoom_loop zero c bytes mem w = (mem, w)
  zoom_loop (suc n) c bytes mem w =
      let (mem', w') = bytes_loop bytes c bytes mem w in
      let back = if up c then sub32 mem' (width c) else u32 (mem' + width c) in
      zoom_loop n c (width c) (if ltb 0 n then back else mem') w'

  -- The loop over the lines.
  unfoldable pub lines_loop : ℕ → SgiMc → ℕ → ℕ → ℕ → World → ℕ × World
  unfolding zoom_loop
  lines_loop zero c zoom bytes mem w = (mem, w)
  lines_loop (suc n) c zoom bytes mem w =
      let (mem', w') = zoom_loop zoom c bytes mem w in
      lines_loop n c (bits c.dma_stride 16 10) (next_bytes c zoom bytes)
        (u32 (mem' + u32 (sext16 c.dma_stride))) w'

  -- `dma_perform`; the last part is `irq_poke`.
  unfoldable pub dma_perform : SgiMc → World → SgiMc × World × Bool
  unfolding lines_loop finished
  dma_perform c w =
      let (mem, w') =
        lines_loop (c.dma_size / 2 ^ 16) c (bits c.dma_count 16 10) (c.dma_count % 2 ^ 16)
          c.dma_memadr w in
      (finished c mem, w', is_set c.dma_ctl 4)
