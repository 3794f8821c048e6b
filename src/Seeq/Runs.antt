-- ===== src/Seeq/Runs.antt =====
-- Runs of the Ethernet controller: polls, registers, transmission and the receive loop.
use interp_mips.Prelude.{
  arith, ◌==◌, ◌%◌, Bool-cases, inl, inr, ℕ, ◌≡◌, refl, sym, ap, ◌∙◌, true, List, [], ◌∷◌,
}
use mathlib.Core.List.{◌++◌, append-nil, append_assoc}
use interp_mips.Seeq.{
  SgiSeeq, pio_r, pio_w, tx_dma_w, tx_flush, poll, rx_avail, raise_interrupt, write_bank,
}
use interp_mips.Seeq.Stream.{
  Guest, take, staged, pending, flow, is_between, is_valid, take_keeps, take_valid,
}
use interp_mips.Seeq.Arrival.{arrived_at, staged-append, poll-queue, flow-poll}

-- What the guest and the host do: a poll of the tap, a round of the receive loop, a read or a
-- write of a register, a byte to send, and the end of a frame to send.
pub data Op : Type 0 where
  arrives : List (List ℕ) → Op
  takes_byte : Op
  reads : ℕ → Op
  writes : ℕ → ℕ → Op
  sends : ℕ → Op
  flushes : Op

abbrev pub step : Op → Guest → Guest
step (arrives fs) w = record w { seeq = poll fs w.seeq }
step takes_byte w = take w
step (reads reg) w = record w { seeq = (pio_r reg w.seeq).1 }
step (writes reg b) w = record w { seeq = pio_w reg b w.seeq }
step (sends b) w = record w { seeq = tx_dma_w b w.seeq }
step flushes w = record w { seeq = tx_flush w.seeq }

abbrev pub run : List Op → Guest → Guest
run [] w = w
run (o ∷ ops) w = run ops (step o w)

abbrev pub arrived_by : Op → Guest → List (List ℕ)
arrived_by (arrives fs) w = arrived_at w.seeq fs
arrived_by _ w = []

-- The frames that arrive in a run, each filtered by the registers of its time.
abbrev pub all_arrived : List Op → Guest → List (List ℕ)
all_arrived [] w = []
all_arrived (o ∷ ops) w = arrived_by o w ++ all_arrived ops (step o w)

-- An operation that leaves the receive side alone.
record IsAside (c d : SgiSeeq) : Type 0 where
  rest : d.rx_rest ≡ c.rx_rest
  queue : d.rx_queue ≡ c.rx_queue

pio_r-IsAside : (reg : ℕ) (c : SgiSeeq) → IsAside c ((pio_r reg c).1)
unfolding pio_r raise_interrupt
pio_r-IsAside reg c = elim (Bool-cases (reg % 8 == 6)) [
  | inl e ↦ rw e (record { rest = refl; queue = refl })
  | inr e ↦ rw e (elim (Bool-cases (reg % 8 == 7)) [
    | inl h ↦ rw h (record { rest = refl; queue = refl })
    | inr h ↦ rw h (record { rest = refl; queue = refl })
  ])
]

write_bank-IsAside : (idx b : ℕ) (c : SgiSeeq) → IsAside c (write_bank idx b c)
unfolding write_bank
write_bank-IsAside idx b c = record { rest = ground arith; queue = ground arith }

pio_w-IsAside : (reg b : ℕ) (c : SgiSeeq) → IsAside c (pio_w reg b c)
unfolding pio_w raise_interrupt
pio_w-IsAside reg b c =
    let p = write_bank-IsAside (reg % 8) b c in
    let r = p.rest in let q = p.queue in record { rest = ground arith; queue = ground arith }

tx_flush-IsAside : (c : SgiSeeq) → IsAside c (tx_flush c)
unfolding tx_flush raise_interrupt
tx_flush-IsAside c = record { rest = ground arith; queue = ground arith }

step_valid : (o : Op) (w : Guest) → is_valid w ≡ true → is_valid (step o w) ≡ true
unfolding rx_avail
step_valid (arrives fs) w v = ap (λ d. is_between w.partial d.rx_rest) (poll-queue fs w.seeq) ∙ v
step_valid takes_byte w v = take_valid w.seeq.rx_rest w.seeq.rx_queue w v refl
step_valid (reads reg) w v = ap (is_between w.partial) (pio_r-IsAside reg w.seeq).rest ∙ v
step_valid (writes reg b) w v = ap (is_between w.partial) (pio_w-IsAside reg b w.seeq).rest ∙ v
step_valid (sends b) w v = v
step_valid flushes w v = ap (is_between w.partial) (tx_flush-IsAside w.seeq).rest ∙ v

flow_of_aside :
    (w : Guest) (d : SgiSeeq) → IsAside w.seeq d → flow (record w { seeq = d }) ≡ flow w ++ []
flow_of_aside w d p =
    ap (λ rest. w.frames ++ (pending w.partial rest ++ staged d.rx_queue)) p.rest
    ∙ ap (λ q. w.frames ++ (pending w.partial w.seeq.rx_rest ++ staged q)) p.queue
    ∙ sym (append-nil (flow w))

flow-step :
    (o : Op) (w : Guest) → is_valid w ≡ true → flow (step o w) ≡ flow w ++ staged (arrived_by o w)
unfolding rx_avail
flow-step (arrives fs) w v = flow-poll fs w
flow-step takes_byte w v =
    take_keeps w.seeq.rx_rest w.seeq.rx_queue w v refl refl ∙ sym (append-nil (flow w))
flow-step (reads reg) w v = flow_of_aside w ((pio_r reg w.seeq).1) (pio_r-IsAside reg w.seeq)
flow-step (writes reg b) w v = flow_of_aside w (pio_w reg b w.seeq) (pio_w-IsAside reg b w.seeq)
flow-step (sends b) w v = flow_of_aside w (tx_dma_w b w.seeq) (record { rest = refl; queue = refl })
flow-step flushes w v = flow_of_aside w (tx_flush w.seeq) (tx_flush-IsAside w.seeq)

-- For any run of the Ethernet controller, of polls of the tap, register reads and writes,
-- transmission and rounds of the receive loop, from a state where the guest has a part of a
-- frame only while the rest of it is left: the frames that the guest has put together by the
-- mark of the last byte, the one it is taking, and the streams of those that wait are, in
-- order, the ones of the start with the stream of each frame that was read and passed the
-- filter as the registers stood then; none is lost, cut or mixed with another.
pub run-staged :
    (ops : List Op) (w : Guest)
    → is_valid w ≡ true
    → flow (run ops w) ≡ flow w ++ staged (all_arrived ops w)
run-staged [] w v = sym (append-nil (flow w))
run-staged (o ∷ ops) w v =
    run-staged ops (step o w) (step_valid o w v)
    ∙ ap (λ u. u ++ staged (all_arrived ops (step o w))) (flow-step o w v)
    ∙ append_assoc (flow w) (staged (arrived_by o w)) (staged (all_arrived ops (step o w)))
    ∙ ap (λ u. flow w ++ u) (sym (staged-append (arrived_by o w) (all_arrived ops (step o w))))
