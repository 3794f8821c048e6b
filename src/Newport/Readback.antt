-- ===== src/Newport/Readback.antt =====
-- What is read back from the board.
use interp_mips.Prelude.{
  ℕ, zero, suc, ◌+◌, ◌/◌, ◌%◌, ◌^◌, ◌≤◌, ◌<◌, ◌≡◌, refl, sym, ap, ◌∙◌, arith, Bool, true, false,
  List, [], ◌∷◌, is_set, update, u16, ◌<<<◌, ◌>>>◌, ◌&&◌, ltb, u8, ◌-◌,
}
use mathlib.Core.Path.{subst}
use interp_mips.Newport.Vc2
use interp_mips.Newport.Vc2.{Vc2, vc2_ram_size}
use interp_mips.Newport.Dcb.{Board, dcb_read, dcb_write, slave_write, slave_read}
use interp_mips.Newport.Bus.{rex3_w, rex3_r, write_dcb, dcb_mode_of}

-- A write and a read of the data of the display control bus.
abbrev pub put_data : ℕ → Board → Board
put_data d b = rex3_w 0x48 (d <<< 32) (2 ^ 64 - 2 ^ 32) true false b

-- DCB mode of VC2: its data register, two bytes; its index register, four bytes.
abbrev pub set_mode : ℕ → Board → Board
set_mode m b = rex3_w 0x47 (m <<< 32) (2 ^ 64 - 2 ^ 32) true false b

abbrev pub ram_mode : ℕ
ram_mode = 0x32

abbrev pub index_mode : ℕ
index_mode = 0

abbrev pub length : List ℕ → ℕ
length [] = 0
length (w ∷ ws) = suc (length ws)

-- Words to the RAM of VC2 from an address on, and as many words from there back.
abbrev pub put_words : List ℕ → Board → Board
put_words [] b = b
put_words (w ∷ ws) b = put_words ws (put_data w b)

abbrev pub at_address : ℕ → Board → Board
at_address a b = set_mode ram_mode (put_data (0x07 <<< 24 + a <<< 8) (set_mode index_mode b))

abbrev pub get_words : ℕ → Board → List ℕ
get_words zero b = []
get_words (suc n) b = let p = rex3_r 0x48 true false b in (p.0 / 2 ^ 32) ∷ get_words n (p.1)

-- The bus addresses the RAM of VC2.
record IsReady (b : Board) : Type 0 where
  slave : b.rex.dcb_slave_select ≡ 0
  reg : b.rex.dcb_reg_select ≡ 3
  mask : b.rex.dcb_mask ≡ 0xffff
  fixed : is_set b.rex.dcb_mode 3 ≡ false

record IsPut (w : ℕ) (b after : Board) : Type 0 where
  ready : IsReady after
  ram : after.vc2.ram ≡ update b.vc2.ram b.vc2.ram_addr (u16 w)
  next : after.vc2.ram_addr ≡ (b.vc2.ram_addr + 1) % vc2_ram_size

shifted : (d : ℕ) → d <<< 32 >>> 32 ≡ d
shifted d = omega arith

put_data-eq-dcb_write : (d : ℕ) (b : Board) → put_data d b ≡ dcb_write d b
unfolding rex3_w write_dcb
put_data-eq-dcb_write d b = ap (λ t. dcb_write t b) (shifted d)

set_mode-eq : (m : ℕ) (b : Board) → set_mode m b ≡ record b { rex = dcb_mode_of m b.rex }
unfolding rex3_w
set_mode-eq m b = ap (λ t. record b { rex = dcb_mode_of t b.rex }) (shifted m)

dcb_write-IsPut : (w : ℕ) (b : Board) → IsReady b → IsPut w b (dcb_write w b)
unfolding dcb_write slave_write Vc2.write
dcb_write-IsPut w b p =
    let s = p.slave in
    let r = p.reg in
    let m = p.mask in
    let f = p.fixed in
    record {
      ready = record {
        slave = simp (s, r, m, f) refl;
        reg = simp (s, r, m, f) refl;
        mask = simp (s, r, m, f) refl;
        fixed = simp (s, r, m, f) refl;
      };
      ram = simp (s, r, m, f) refl;
      next = simp (s, r, m, f) refl;
    }

put_data-IsPut : (w : ℕ) (b : Board) → IsReady b → IsPut w b (put_data w b)
put_data-IsPut w b p =
    subst (λ t. IsPut w b t) (sym (put_data-eq-dcb_write w b)) (dcb_write-IsPut w b p)

-- The RAM after words at c and on, around its end.
written : List ℕ → ℕ → (ℕ → ℕ) → ℕ → ℕ
written [] c f = f
written (w ∷ ws) c f = written ws ((c + 1) % vc2_ram_size) (update f c (u16 w))

ring_words : ℕ → ℕ → (ℕ → ℕ) → List ℕ
ring_words zero c f = []
ring_words (suc n) c f = f c ∷ ring_words n ((c + 1) % vc2_ram_size) f

record IsAt (c : ℕ) (f : ℕ → ℕ) (b : Board) : Type 0 where
  ready : IsReady b
  ram : b.vc2.ram ≡ f
  addr : b.vc2.ram_addr ≡ c

put_words-IsAt :
    (ws : List ℕ) (c : ℕ) (f : ℕ → ℕ) (b : Board)
    → IsAt c f b
    → (c' : ℕ) × IsAt c' (written ws c f) (put_words ws b)
unfolding written
put_words-IsAt [] c f b p = (c, p)
put_words-IsAt (w ∷ ws) c f b p =
    let q = put_data-IsPut w b p.ready in
    let e = p.ram in
    let a = p.addr in
    put_words-IsAt ws ((c + 1) % vc2_ram_size) (update f c (u16 w)) (put_data w b)
      (record { ready = q.ready; ram = q.ram ∙ cc; addr = q.next ∙ cc })

dcb_read-IsAt :
    (c : ℕ) (f : ℕ → ℕ) (b : Board)
    → IsAt c f b
    → ((dcb_read b).0 ≡ f c) × IsAt ((c + 1) % vc2_ram_size) f ((dcb_read b).1)
unfolding dcb_read slave_read Vc2.read
dcb_read-IsAt c f b p =
    let s = p.ready.slave in
    let r = p.ready.reg in
    let m = p.ready.mask in
    let x = p.ready.fixed in
    (
      simp (s, r, m) cc,
      record {
        ready = record {
          slave = simp (s, r, m, x) refl;
          reg = simp (s, r, m, x) refl;
          mask = simp (s, r, m, x) refl;
          fixed = simp (s, r, m, x) refl;
        };
        ram = simp (s, r, m, x) (p.ram);
        addr = simp (s, r, m, x) (ap (λ t. (t + 1) % vc2_ram_size) (p.addr));
      },
    )

get_data-value : (v m : ℕ) → (v <<< 32 + 0) / 2 ^ 32 ≡ v
get_data-value v m = omega arith

get_words-eq-ring :
    (n c : ℕ) (f : ℕ → ℕ) (b : Board) → IsAt c f b → get_words n b ≡ ring_words n c f
unfolding ring_words rex3_r
get_words-eq-ring zero c f b p = refl
get_words-eq-ring (suc n) c f b p =
    let q = dcb_read-IsAt c f b p in
    let rest = get_words-eq-ring n ((c + 1) % vc2_ram_size) f ((dcb_read b).1) (q.1) in
    let v = get_data-value ((dcb_read b).0) 0 ∙ q.0 in cons_eq v rest
  where
    cons_eq : {x y : ℕ} {xs ys : List ℕ} → x ≡ y → xs ≡ ys → (x ∷ xs) ≡ (y ∷ ys)
    cons_eq e h = cc

address_set :
    (d a : ℕ) (b : Board)
    → u8 (d >>> 24) ≡ 7
    → u16 (d >>> 8) ≡ a
    → ((dcb_write d (record b { rex = dcb_mode_of index_mode b.rex })).vc2.ram ≡ b.vc2.ram)
      × ((dcb_write d (record b { rex = dcb_mode_of index_mode b.rex })).vc2.ram_addr
          ≡ a % vc2_ram_size)
unfolding dcb_write slave_write Vc2.write Vc2.write_register dcb_mode_of
address_set d a b i v = (simp (i, v) refl, simp (i, v) refl)

at_address-eq :
    (a : ℕ) (b : Board)
    → at_address a b
      ≡ set_mode ram_mode
          (dcb_write (0x07 <<< 24 + a <<< 8) (record b { rex = dcb_mode_of index_mode b.rex }))
at_address-eq a b =
    ap (λ t. set_mode ram_mode (put_data (0x07 <<< 24 + a <<< 8) t)) (set_mode-eq index_mode b)
    ∙ ap (set_mode ram_mode) (put_data-eq-dcb_write (0x07 <<< 24 + a <<< 8) _)

ram_mode-IsAt :
    (c : ℕ) (f : ℕ → ℕ) (b : Board)
    → b.vc2.ram ≡ f
    → b.vc2.ram_addr ≡ c
    → IsAt c f (record b { rex = dcb_mode_of ram_mode b.rex })
unfolding dcb_mode_of
ram_mode-IsAt c f b e h = record {
  ready = record { slave = refl; reg = refl; mask = refl; fixed = refl };
  ram = e;
  addr = h;
}

at_address-IsAt : (a : ℕ) (b : Board) → a < vc2_ram_size → IsAt a b.vc2.ram (at_address a b)
at_address-IsAt a b h =
    let p = address_set (0x07 <<< 24 + a <<< 8) a b (omega arith) (omega arith) in
    subst (λ t. IsAt a b.vc2.ram t) (sym (at_address-eq a b ∙ set_mode-eq ram_mode _))
      (ram_mode-IsAt a b.vc2.ram _ (p.0) (p.1 ∙ omega arith))

-- A word that lies beyond those written, around the end, is as before.
unwritten :
    (ws : List ℕ) (c j : ℕ) (f : ℕ → ℕ)
    → c < vc2_ram_size
    → j < vc2_ram_size
    → length ws ≤ (j + vc2_ram_size - c) % vc2_ram_size
    → written ws c f j ≡ f j
unfolding written
unwritten [] c j f h l u = refl
unwritten (w ∷ ws) c j f h l u =
    unwritten ws ((c + 1) % vc2_ram_size) j (update f c (u16 w)) (omega arith) l (ground arith)
    ∙ ground arith

-- All words are of 16 bits.
abbrev pub are_words : List ℕ → Bool
are_words [] = true
are_words (w ∷ ws) = ltb w (2 ^ 16) && are_words ws

ring_words-written :
    (ws : List ℕ) (c : ℕ) (f : ℕ → ℕ)
    → c < vc2_ram_size
    → length ws ≤ vc2_ram_size
    → are_words ws ≡ true
    → ring_words (length ws) c (written ws c f) ≡ ws
unfolding written ring_words
ring_words-written [] c f h l u = refl
ring_words-written (w ∷ ws) c f h l u =
    let v : written ws ((c + 1) % vc2_ram_size) (update f c (u16 w)) c ≡ w =
      unwritten ws ((c + 1) % vc2_ram_size) c (update f c (u16 w)) (omega arith) h (ground arith)
      ∙ ground arith in
    let rest =
      ring_words-written ws ((c + 1) % vc2_ram_size) (update f c (u16 w)) (omega arith)
        (ground arith) (ground arith) in
    cc

-- Words of 16 bits, 0x8000 of them at most, that the guest writes to the RAM of the video
-- timing chip through the registers of the display control bus, from any address on and around
-- the end, are what it reads back from there, in order.
pub get_words-put_words :
    (ws : List ℕ) (a : ℕ) (b : Board)
    → a < vc2_ram_size
    → length ws ≤ vc2_ram_size
    → are_words ws ≡ true
    → get_words (length ws) (at_address a (put_words ws (at_address a b))) ≡ ws
get_words-put_words ws a b h l u =
    let p = (put_words-IsAt ws a b.vc2.ram (at_address a b) (at_address-IsAt a b h)).1 in
    let q = at_address-IsAt a (put_words ws (at_address a b)) h in
    get_words-eq-ring (length ws) a _ _ q
    ∙ ap (ring_words (length ws) a) p.ram
    ∙ ring_words-written ws a b.vc2.ram h l u
