-- ===== src/Serial.antt =====
-- The serial controller of the board, `sgi_scc` (sgi_scc.hh, sgi_scc.cc). The arrays are functions
-- of the channel or of the index, `stdout` the bytes that were echoed, last first. The bytes that
-- the host has ready on its standard input are an argument, and what is left of them a result.
pub mod Fifo
pub mod Transmit
use interp_mips.Prelude.{
  ℕ, ◌+◌, ◌-◌, ◌*◌, ◌/◌, ◌%◌, ◌^◌, Bool, true, false, not, ◌&&◌, ◌||◌, if◌then◌else◌, ◌==◌, ltb,
  leb, u8, u64, is_set, bits, update, List, [], ◌∷◌,
}

pub record SgiScc : Type 0 where
  pub ptr : ℕ → ℕ
  pub wr1 : ℕ → ℕ
  pub wr9 : ℕ
  pub tx_busy : ℕ → Bool
  pub drain_at : ℕ → ℕ
  pub tx_ip : ℕ → Bool
  pub clk : ℕ
  pub rx_fifo : ℕ → ℕ
  pub rx_wptr : ℕ
  pub rx_rptr : ℕ
  pub rx_count : ℕ
  pub rx_init : Bool
  pub rx_poll_at : ℕ
  pub stdout : List ℕ

-- The state that the member initialisers give.
abbrev pub init : SgiScc
init = record {
  ptr = λ ch. 0;
  wr1 = λ ch. 0;
  wr9 = 0;
  tx_busy = λ ch. false;
  drain_at = λ ch. 0;
  tx_ip = λ ch. false;
  clk = 0;
  rx_fifo = λ i. 0;
  rx_wptr = 0;
  rx_rptr = 0;
  rx_count = 0;
  rx_init = false;
  rx_poll_at = 0;
  stdout = [];
}

abbrev pub fifo_size : ℕ
fifo_size = 8

abbrev pub tx_drain_ticks : ℕ
tx_drain_ticks = 1024

abbrev pub is_data_reg : ℕ → Bool
is_data_reg offs = is_set offs 2

abbrev pub chan : ℕ → ℕ
chan offs = bits offs 3 1

abbrev pub tx_int : ℕ → Bool → Bool
tx_int wr1 ip = is_set wr1 1 && ip

abbrev pub rx_int_en : ℕ → Bool
rx_int_en wr1 = not (bits wr1 3 2 == 0)

-- One round of the loop of `rx_poll`.
unfoldable pub push : SgiScc → ℕ → SgiScc
push c b = record c {
  rx_fifo = update c.rx_fifo c.rx_wptr b;
  rx_wptr = (c.rx_wptr + 1) % fifo_size;
  rx_count = u8 (c.rx_count + 1);
}

unfoldable pub rx_drain : SgiScc → List ℕ → SgiScc × List ℕ
unfolding push
rx_drain c [] = (c, [])
rx_drain c (b ∷ input) =
    let rest = rx_drain (push c b) input in
    if ltb c.rx_count fifo_size then rest else (c, b ∷ input)

unfoldable pub rx_poll : SgiScc → List ℕ → SgiScc × List ℕ
unfolding rx_drain
rx_poll c input = rx_drain (record c { rx_init = true }) input

-- A character of the channel that has finished to shift out.
unfoldable pub drain : ℕ → SgiScc → SgiScc
drain ch c =
    if c.tx_busy ch && leb (c.drain_at ch) c.clk
    then record c { tx_busy = update c.tx_busy ch false; tx_ip = update c.tx_ip ch true }
    else c

-- The polling of `tick`, about every 64k ticks.
unfoldable pub poll_due : SgiScc → List ℕ → SgiScc × List ℕ
unfolding rx_poll
poll_due c input =
    let polled = rx_poll c input in
    if leb c.rx_poll_at c.clk
    then (record (polled.0) { rx_poll_at = u64 (c.clk + 65536) }, polled.1)
    else (c, input)

unfoldable pub tick : SgiScc → ℕ → List ℕ → SgiScc × List ℕ
unfolding poll_due drain
tick c dticks input =
    let polled = poll_due (record c { clk = u64 (c.clk + dticks) }) input in
    (drain 1 (drain 0 (polled.0)), polled.1)

-- The byte of a data read, and the queue without it.
unfoldable pub read_data : SgiScc → ℕ × SgiScc
read_data c =
    if ltb 0 c.rx_count
    then (
      c.rx_fifo c.rx_rptr,
      record c { rx_rptr = (c.rx_rptr + 1) % fifo_size; rx_count = c.rx_count - 1 },
    )
    else (0, c)

-- The value of a set bit of RR3.
abbrev pub flag : Bool → ℕ → ℕ
flag b v = if b then v else 0

unfoldable pub rr3 : SgiScc → ℕ
rr3 c =
    let avail = ltb 0 c.rx_count in
    flag (tx_int (c.wr1 1) (c.tx_ip 1)) 0x10
    + flag (tx_int (c.wr1 0) (c.tx_ip 0)) 0x02
    + flag (avail && rx_int_en (c.wr1 1)) 0x20
    + flag (avail && rx_int_en (c.wr1 0)) 0x04

unfoldable pub read_control : ℕ → SgiScc → ℕ × SgiScc
unfolding rr3
read_control ch c =
    let p = c.ptr ch in
    let busy = c.tx_busy ch in
    let t = record c { ptr = update c.ptr ch 0 } in
    if p == 3
    then (rr3 c, t)
    else if p == 1
    then (if busy then 0x00 else 0x01, t)
    else ((if busy then 0 else 0x44) + flag (ltb 0 c.rx_count) 0x01, t)

unfoldable pub read : ℕ → SgiScc → ℕ × SgiScc
unfolding read_data read_control
read offs c = if is_data_reg offs then read_data c else read_control (chan offs) c

unfoldable pub write_data : ℕ → ℕ → SgiScc → SgiScc
write_data ch b c = record c {
  stdout = b ∷ c.stdout;
  tx_ip = update c.tx_ip ch false;
  tx_busy = update c.tx_busy ch true;
  drain_at = update c.drain_at ch (u64 (c.clk + tx_drain_ticks));
}

-- The commands of WR0, bits 5 to 3: `CMD_POINT_HIGH` and `CMD_RES_Tx_P`.
abbrev pub command : ℕ → ℕ
command b = bits b 3 3 * 8

unfoldable pub write_control : ℕ → ℕ → SgiScc → SgiScc
write_control ch b c =
    let p = c.ptr ch in
    if p == 0
    then record c {
      tx_ip = if command b == 0x28 then update c.tx_ip ch false else c.tx_ip;
      ptr = update c.ptr ch (bits b 0 3 + (if command b == 0x08 then 0x08 else 0x00));
    }
    else record c {
      wr1 = if p == 1 then update c.wr1 ch b else c.wr1;
      wr9 = if p == 9 then b else c.wr9;
      ptr = update c.ptr ch 0;
    }

unfoldable pub write : ℕ → ℕ → SgiScc → SgiScc
unfolding write_data write_control
write offs b c =
    if is_data_reg offs then write_data (chan offs) b c else write_control (chan offs) b c

unfoldable pub int_pending : SgiScc → Bool
int_pending c =
    (ltb 0 c.rx_count && (rx_int_en (c.wr1 0) || rx_int_en (c.wr1 1)))
    || tx_int (c.wr1 0) (c.tx_ip 0)
    || tx_int (c.wr1 1) (c.tx_ip 1)
