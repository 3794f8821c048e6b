-- ===== src/Seeq.antt =====
-- The Ethernet controller of the board, `sgi_seeq` (sgi_seeq.hh, sgi_seeq.cc): its registers, the
-- frames on their way in and out, and the bytes of the receive stream that are not yet taken, which
-- stand for rx_cur from rx_pos on. The tap is a list of frames written; what it has to read is an
-- argument. The log (SEEQ_DBG) is off.
pub mod Stream
pub mod Arrival
pub mod Runs
use interp_mips.Prelude.{
  ℕ, zero, suc, ◌+◌, ◌-◌, ◌*◌, ◌/◌, ◌%◌, ◌^◌, Bool, true, false, not, ◌&&◌, ◌||◌, if◌then◌else◌,
  ◌==◌, ltb, leb, is_set, bits, set_bit, update, List, [], ◌∷◌,
}
use mathlib.Core.List.{◌++◌}

pub record SgiSeeq : Type 0 where
  pub rx_cmd : ℕ
  pub rx_stat : ℕ
  pub tx_cmd : ℕ
  pub tx_stat : ℕ
  pub station_addr : ℕ → ℕ
  pub mcast_lsb : ℕ → ℕ
  pub mcast_msb : ℕ → ℕ
  pub pktgap : ℕ
  pub ctl : ℕ
  pub intpend : Bool
  pub tx_frame : List ℕ
  pub rx_queue : List (List ℕ)
  pub rx_rest : List ℕ
  pub tap_up : Bool
  pub tap : List (List ℕ)

abbrev pub eth_min : ℕ
eth_min = 60

abbrev pub rx_status_good : ℕ
rx_status_good = 0x30

-- The initial values; `tap_up` is whether the constructor opened the tap.
abbrev pub init : Bool → SgiSeeq
init up = record {
  rx_cmd = 0;
  rx_stat = 0x80;
  tx_cmd = 0;
  tx_stat = 0x88;
  station_addr = λ i. 0;
  mcast_lsb = λ i. 0;
  mcast_msb = λ i. 0;
  pktgap = 0;
  ctl = 0;
  intpend = false;
  tx_frame = [];
  rx_queue = [];
  rx_rest = [];
  tap_up = up;
  tap = [];
}

unfoldable pub reset : SgiSeeq → SgiSeeq
reset c = record c {
  rx_cmd = 0;
  rx_stat = 0x80;
  tx_cmd = 0;
  tx_stat = 0x88;
  ctl = 0;
  intpend = false;
  tx_frame = [];
  rx_queue = [];
  rx_rest = [];
}

abbrev pub length : List ℕ → ℕ
length [] = 0
length (b ∷ bs) = suc (length bs)

-- Byte i of a frame; the filter asks for the first six of six or more.
abbrev pub byte_at : List ℕ → ℕ → ℕ
byte_at [] i = 0
byte_at (b ∷ bs) zero = b
byte_at (b ∷ bs) (suc i) = byte_at bs i

-- Whether a status is new, and has one of the enabled bits among the low n, 4 or 5.
abbrev pub asks : ℕ → ℕ → Bool → Bool
asks cmd stat five =
    not (is_set stat 7)
    && ((is_set cmd 0 && is_set stat 0)
        || (is_set cmd 1 && is_set stat 1)
        || (is_set cmd 2 && is_set stat 2)
        || (is_set cmd 3 && is_set stat 3)
        || (five && (is_set cmd 4 && is_set stat 4)))

unfoldable pub raise_interrupt : SgiSeeq → SgiSeeq
raise_interrupt c = record c {
  intpend = asks c.rx_cmd c.rx_stat true || asks c.tx_cmd c.tx_stat false;
}

-- Whether the first six bytes of a frame are an address.
abbrev pub addressed : (ℕ → ℕ) → List ℕ → Bool
addressed a f =
    (byte_at f 0 == a 0)
    && (byte_at f 1 == a 1)
    && (byte_at f 2 == a 2)
    && (byte_at f 3 == a 3)
    && (byte_at f 4 == a 4)
    && (byte_at f 5 == a 5)

unfoldable pub address_filter : SgiSeeq → List ℕ → Bool
address_filter c f =
    let is_bcast = addressed (λ i. 0xff) f in
    let is_sta = addressed c.station_addr f in
    let is_multi = is_set (byte_at f 0) 0 in
    let mode = bits c.rx_cmd 6 2 in
    if ltb (length f) 6
    then false
    else if mode == 0
    then false
    else if mode == 1
    then true
    else if mode == 2
    then is_bcast || is_sta
    else is_bcast || is_sta || is_multi

unfoldable pub pio_r : ℕ → SgiSeeq → ℕ × SgiSeeq
unfolding raise_interrupt
pio_r reg c =
    let r = reg % 8 in
    if r == 6
    then (c.rx_stat, raise_interrupt (record c { rx_stat = set_bit c.rx_stat 7 }))
    else if r == 7
    then (c.tx_stat, raise_interrupt (record c { tx_stat = set_bit c.tx_stat 7 }))
    else (if r == 5 then 1 else 0, c)

-- A write of one of the registers 0 to 5, in the bank that the transmit command selects.
unfoldable pub write_bank : ℕ → ℕ → SgiSeeq → SgiSeeq
write_bank idx x c =
    let bank = bits c.tx_cmd 5 2 in
    if bank == 0
    then record c { station_addr = update c.station_addr idx x }
    else if bank == 1
    then record c { mcast_lsb = update c.mcast_lsb idx x }
    else if bank == 2
    then (if idx == 0 || idx == 1
        then record c { mcast_msb = update c.mcast_msb idx x }
        else if idx == 2
        then record c { pktgap = x }
        else if idx == 3
        then record c { ctl = x }
        else c)
    else c

unfoldable pub pio_w : ℕ → ℕ → SgiSeeq → SgiSeeq
unfolding raise_interrupt write_bank
pio_w reg x c =
    let r = reg % 8 in
    if r == 6
    then raise_interrupt (record c { rx_cmd = x })
    else if r == 7
    then raise_interrupt (record c { tx_cmd = x })
    else write_bank r x c

abbrev pub tx_dma_w : ℕ → SgiSeeq → SgiSeeq
tx_dma_w b c = record c { tx_frame = c.tx_frame ++ (b ∷ []) }

unfoldable pub tx_flush : SgiSeeq → SgiSeeq
unfolding raise_interrupt
tx_flush c =
    let sent =
      if c.tap_up && leb 14 (length c.tx_frame) then c.tap ++ (c.tx_frame ∷ []) else c.tap in
    if length c.tx_frame == 0
    then c
    else raise_interrupt (record c { tap = sent; tx_frame = []; tx_stat = 0x08 })

-- The frames that a poll reads off the tap: those of 14 bytes or more that the filter lets pass.
abbrev pub accepts : SgiSeeq → List ℕ → Bool
accepts c f = not (ltb (length f) 14) && address_filter c f

unfoldable pub poll_loop : List (List ℕ) → SgiSeeq → SgiSeeq
unfolding address_filter
poll_loop [] c = c
poll_loop (f ∷ fs) c =
    poll_loop fs (if accepts c f then record c { rx_queue = c.rx_queue ++ (f ∷ []) } else c)

unfoldable pub poll : List (List ℕ) → SgiSeeq → SgiSeeq
unfolding poll_loop
poll fs c = if c.tap_up then poll_loop fs c else c

abbrev pub zeros : ℕ → List ℕ
zeros zero = []
zeros (suc n) = 0 ∷ zeros n

-- The receive stream of a frame: two bytes of padding, the frame, a runt filled up, the status.
unfoldable pub stage : List ℕ → List ℕ
stage f = 0 ∷ 0 ∷ (f ++ (zeros (eth_min - length f) ++ (rx_status_good ∷ [])))

-- Whether there is a byte to take, by what is left of the stream and the frames that wait; the next
-- frame is staged where the stream is used up.
unfoldable pub stage_next : List ℕ → List (List ℕ) → SgiSeeq → Bool × SgiSeeq
unfolding stage
stage_next (b ∷ bs) fs c = (true, c)
stage_next [] [] c = (false, c)
stage_next [] (f ∷ fs) c = (true, record c { rx_rest = stage f; rx_queue = fs })

unfoldable pub rx_avail : SgiSeeq → Bool × SgiSeeq
unfolding stage_next
rx_avail c = stage_next c.rx_rest c.rx_queue c

-- The next byte of what is left of the stream, and whether it is the last one.
unfoldable pub next_byte : List ℕ → SgiSeeq → ℕ × Bool × SgiSeeq
unfolding raise_interrupt
next_byte [] c = (0, true, c)
next_byte (b ∷ []) c = (b, true, raise_interrupt (record c { rx_rest = []; rx_stat = 0x30 }))
next_byte (b ∷ d ∷ bs) c = (b, false, record c { rx_rest = d ∷ bs })

unfoldable pub rx_dma_r : SgiSeeq → ℕ × Bool × SgiSeeq
unfolding next_byte
rx_dma_r c = next_byte c.rx_rest c
