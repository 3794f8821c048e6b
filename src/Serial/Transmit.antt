-- ===== src/Serial/Transmit.antt =====
-- The transmit interrupt of the serial controller: a character takes its time to shift out.
use interp_mips.Prelude.{
  ℕ, ◌+◌, ◌^◌, ◌≤◌, ◌<◌, ◌≡◌, refl, arith, true, false, leb, ltb, ltb→lt, List, [], ◌∷◌, Bool-cases,
  inl, inr, u64,
}
use interp_mips.Serial.{
  SgiScc, tx_drain_ticks, is_data_reg, chan, push, rx_drain, rx_poll, poll_due, drain, tick, write,
  write_data,
}

-- The two flags of a channel, its deadline and the clock.
pub record SameTx (c d : SgiScc) : Type 0 where
  pub busy : c.tx_busy ≡ d.tx_busy
  pub ip : c.tx_ip ≡ d.tx_ip
  pub due : c.drain_at ≡ d.drain_at
  pub clock : c.clk ≡ d.clk

-- The receiver does not touch the transmitter.
rx_drain-SameTx : (c : SgiScc) (input : List ℕ) → SameTx ((rx_drain c input).0) c
unfolding rx_drain push
rx_drain-SameTx c [] = record { busy = refl; ip = refl; due = refl; clock = refl }
rx_drain-SameTx c (b ∷ input) =
    let u = rx_drain-SameTx (push c b) input in ground (arith, u.busy, u.ip, u.due, u.clock)

poll_due-SameTx : (c : SgiScc) (input : List ℕ) → SameTx ((poll_due c input).0) c
unfolding poll_due rx_poll
poll_due-SameTx c input =
    let u = rx_drain-SameTx (record c { rx_init = true }) input in
    ground (arith, u.busy, u.ip, u.due, u.clock)

-- A series of ticks, each with its count and the input that waits by then.
abbrev pub ticks : List (ℕ × List ℕ) → SgiScc → SgiScc
ticks [] c = c
ticks ((d, input) ∷ ds) c = ticks ds ((tick c d input).0)

abbrev pub total : List (ℕ × List ℕ) → ℕ
total [] = 0
total ((d, input) ∷ ds) = d + total ds

-- A channel whose character is still shifting out, and one whose character is out.
abbrev pub IsShifting : ℕ → SgiScc → Type 0
IsShifting ch c = (c.tx_busy ch ≡ true) × (c.tx_ip ch ≡ false)

abbrev pub IsSent : ℕ → SgiScc → Type 0
IsSent ch c = (c.tx_busy ch ≡ false) × (c.tx_ip ch ≡ true)

module _ (ch : ℕ) (known : ch < 2) where
  tick_waits :
      (c : SgiScc) (d : ℕ) (input : List ℕ)
      → IsShifting ch c
      → c.clk + d < 2 ^ 64
      → c.clk + d < c.drain_at ch
      → let t = (tick c d input).0 in
        IsShifting ch t × (t.clk ≡ c.clk + d) × (t.drain_at ch ≡ c.drain_at ch)
  unfolding tick drain
  tick_waits c d input (b, i) h k =
      let u = poll_due-SameTx (record c { clk = u64 (c.clk + d) }) input in
      ground (arith, u.busy, u.ip, u.due, u.clock)

  tick_sends :
      (c : SgiScc) (d : ℕ) (input : List ℕ)
      → IsShifting ch c
      → c.clk + d < 2 ^ 64
      → c.drain_at ch ≤ c.clk + d
      → IsSent ch ((tick c d input).0)
  unfolding tick drain
  tick_sends c d input (b, i) h k =
      let u = poll_due-SameTx (record c { clk = u64 (c.clk + d) }) input in
      ground (arith, u.busy, u.ip, u.due, u.clock)

  tick_stays : (c : SgiScc) (d : ℕ) (input : List ℕ) → IsSent ch c → IsSent ch ((tick c d input).0)
  unfolding tick drain
  tick_stays c d input (b, i) =
      let u = poll_due-SameTx (record c { clk = u64 (c.clk + d) }) input in
      ground (arith, u.busy, u.ip, u.due, u.clock)

  ticks_stay : (ds : List (ℕ × List ℕ)) (c : SgiScc) → IsSent ch c → IsSent ch (ticks ds c)
  ticks_stay [] c v = v
  ticks_stay ((d, input) ∷ ds) c v = ticks_stay ds _ (tick_stays c d input v)

  ticks_lem :
      (ds : List (ℕ × List ℕ)) (c : SgiScc)
      → IsShifting ch c
      → c.clk + total ds < 2 ^ 64
      → c.clk < c.drain_at ch
      → ((ticks ds c).tx_busy ch ≡ ltb (c.clk + total ds) (c.drain_at ch))
        × ((ticks ds c).tx_ip ch ≡ leb (c.drain_at ch) (c.clk + total ds))
  ticks_lem [] c (b, i) h k = ground arith
  ticks_lem ((d, input) ∷ ds) c v h k = elim (Bool-cases (ltb (c.clk + d) (c.drain_at ch))) [
    | inl e ↦
        let lt = ltb→lt (c.clk + d) (c.drain_at ch) e in
        let (w, clock, due) = tick_waits c d input v (omega arith) lt in
        let ih =
          ticks_lem ds ((tick c d input).0) w (rw clock (omega arith)) (rw (clock, due) lt) in
        ground (arith, ih, clock, due)
    | inr e ↦
        let le : c.drain_at ch ≤ c.clk + d = ground arith in
        let w = tick_sends c d input v (omega arith) le in
        let z = ticks_stay ds ((tick c d input).0) w in ground (arith, z)
  ]

-- After a write of a data register of the serial controller, and any series of ticks with any
-- input, with a clock that does not wrap: the channel is busy exactly as long as fewer than
-- 1024 ticks have passed, and its transmit interrupt is pending exactly from then on.
pub transmit_takes_time :
    (offs b : ℕ) (c : SgiScc) (ds : List (ℕ × List ℕ))
    → is_data_reg offs ≡ true
    → c.clk + tx_drain_ticks < 2 ^ 64
    → c.clk + total ds < 2 ^ 64
    → let t = ticks ds (write offs b c) in
      (t.tx_busy (chan offs) ≡ ltb (total ds) tx_drain_ticks)
      × (t.tx_ip (chan offs) ≡ leb tx_drain_ticks (total ds))
unfolding write write_data
transmit_takes_time offs b c ds r h k =
    let w = write_data (chan offs) b c in
    let z = ticks_lem (chan offs) (omega arith) ds w (ground arith) k (ground arith) in
    rw r (ground (arith, z))
