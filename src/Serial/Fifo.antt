-- ===== src/Serial/Fifo.antt =====
-- The receive queue of the serial controller as a queue of bytes, and runs of its operations.
use interp_mips.Prelude.{
  ℕ, zero, suc, ◌+◌, ◌-◌, ◌%◌, ◌≤◌, ◌<◌, ◌≡◌, refl, sym, ◌∙◌, arith, true, ◌&&◌, if◌then◌else◌, ltb,
  leb, update, List, [], ◌∷◌, Bool-cases, inl, inr, u8, u64, ltb→lt,
}
use mathlib.Core.List.{◌++◌, append-nil, append_assoc}
use interp_mips.Serial.{
  SgiScc, fifo_size, is_data_reg, push, rx_drain, rx_poll, drain, poll_due, tick, read_data,
  read_control, read, write_data, write_control, write,
}

-- The `n` bytes of the ring from index `h` on.
abbrev pub window : (ℕ → ℕ) → ℕ → ℕ → List ℕ
window f h zero = []
window f h (suc n) = f h ∷ window f ((h + 1) % 8) n

-- The bytes received and not yet read, oldest first.
abbrev pub contents : SgiScc → List ℕ
contents c = window c.rx_fifo c.rx_rptr c.rx_count

-- The indices stand in `rx_fifo`, and the write index is `rx_count` bytes past the read index.
pub record IsValid (c : SgiScc) : Type 0 where
  pub few : c.rx_count ≤ 8
  pub rptr_in : c.rx_rptr < 8
  pub wptr_at : c.rx_wptr ≡ (c.rx_rptr + c.rx_count) % 8

-- A write just past the window extends it.
window-update :
    (f : ℕ → ℕ) (b h n i : ℕ)
    → h < 8
    → n < 8
    → i ≡ (h + n) % 8
    → window (update f i b) h (suc n) ≡ window f h n ++ (b ∷ [])
window-update f b h zero i p q e = ground (arith)
window-update f b h (suc n) i p q e =
    let ih = window-update f b ((h + 1) % 8) n i (omega arith) (omega arith) (omega arith) in
    ground (arith, ih)

push-IsValid : (c : SgiScc) (b : ℕ) → IsValid c → c.rx_count < 8 → IsValid (push c b)
unfolding push
push-IsValid c b v h = omega arith

contents-push :
    (c : SgiScc) (b : ℕ) → IsValid c → c.rx_count < 8 → contents (push c b) ≡ contents c ++ (b ∷ [])
unfolding push
contents-push c b v h =
    let e : u8 (c.rx_count + 1) ≡ suc c.rx_count = omega arith in
    rw e (window-update c.rx_fifo b c.rx_rptr c.rx_count c.rx_wptr v.rptr_in h v.wptr_at)

-- What the operations do to the queue: `f` leaves it, or takes its first byte.
rx_drain-IsValid : (c : SgiScc) (input : List ℕ) → IsValid c → IsValid ((rx_drain c input).0)
unfolding rx_drain
rx_drain-IsValid c [] v = v
rx_drain-IsValid c (b ∷ input) v = elim (Bool-cases (ltb c.rx_count fifo_size)) [
  | inl e ↦ rw e (
      rx_drain-IsValid (push c b) input (push-IsValid c b v (omega (arith, ltb→lt c.rx_count 8 e))))
  | inr e ↦ rw e v
]

-- No byte is lost, added or moved.
rx_drain_keeps :
    (c : SgiScc) (input : List ℕ)
    → IsValid c
    → contents ((rx_drain c input).0) ++ (rx_drain c input).1 ≡ contents c ++ input
unfolding rx_drain
rx_drain_keeps c [] v = refl
rx_drain_keeps c (b ∷ input) v = elim (Bool-cases (ltb c.rx_count fifo_size)) [
  | inl e ↦
      let h = ltb→lt c.rx_count 8 e in
      rw
        (
          e,
          rx_drain_keeps (push c b) input (push-IsValid c b v h),
          contents-push c b v h,
          append_assoc,
        )
        refl
  | inr e ↦ rw e refl
]

-- The controller with the bytes that wait on the standard input, and those that the guest got.
pub record Console : Type 0 where
  pub scc : SgiScc
  pub stdin : List ℕ
  pub got : List ℕ

pub data Op : Type 0 where
  typed : List ℕ → Op
  ticked : ℕ → Op
  reads : ℕ → Op
  writes : ℕ → ℕ → Op

-- What a read of the register at `offs` takes off the queue.
abbrev pub taken : ℕ → SgiScc → List ℕ
taken offs c = if is_data_reg offs && ltb 0 c.rx_count then (read offs c).0 ∷ [] else []

abbrev pub step : Op → Console → Console
step (typed bs) w = record w { stdin = w.stdin ++ bs }
step (ticked d) w = let r = tick w.scc d w.stdin in record w { scc = r.0; stdin = r.1 }
step (reads offs) w = record w { scc = (read offs w.scc).1; got = w.got ++ taken offs w.scc }
step (writes offs b) w = record w { scc = write offs b w.scc }

abbrev pub run : List Op → Console → Console
run [] w = w
run (o ∷ ops) w = run ops (step o w)

abbrev pub typed_by : Op → List ℕ
typed_by (typed bs) = bs
typed_by _ = []

abbrev pub all_typed : List Op → List ℕ
all_typed [] = []
all_typed (o ∷ ops) = typed_by o ++ all_typed ops

drain-contents : (ch : ℕ) (c : SgiScc) → contents (drain ch c) ≡ contents c
unfolding drain
drain-contents ch c = ground arith

drain-IsValid : (ch : ℕ) (c : SgiScc) → IsValid c → IsValid (drain ch c)
unfolding drain
drain-IsValid ch c v = ground arith

write-contents : (offs b : ℕ) (c : SgiScc) → contents (write offs b c) ≡ contents c
unfolding write write_data write_control
write-contents offs b c = ground arith

write-IsValid : (offs b : ℕ) (c : SgiScc) → IsValid c → IsValid (write offs b c)
unfolding write write_data write_control
write-IsValid offs b c v = ground arith

read-IsValid : (offs : ℕ) (c : SgiScc) → IsValid c → IsValid ((read offs c).1)
unfolding read read_data read_control
read-IsValid offs c v = ground arith

window_of_ne_zero :
    (f : ℕ → ℕ) (h n : ℕ) → 0 < n → window f h n ≡ f h ∷ window f ((h + 1) % 8) (n - 1)
window_of_ne_zero f h zero p = absurd (omega arith)
window_of_ne_zero f h (suc n) p = ground arith

-- A read takes what it returns off the front.
read-contents : (offs : ℕ) (c : SgiScc) → contents c ≡ taken offs c ++ contents ((read offs c).1)
unfolding read read_data read_control
read-contents offs c = ground (arith, window_of_ne_zero c.rx_fifo c.rx_rptr c.rx_count)

poll_due-IsValid : (c : SgiScc) (input : List ℕ) → IsValid c → IsValid ((poll_due c input).0)
unfolding poll_due rx_poll
poll_due-IsValid c input v =
    let u = rx_drain-IsValid (record c { rx_init = true }) input (omega arith) in
    elim (Bool-cases (leb c.rx_poll_at c.clk)) [
      | inl e ↦ rw e (record { few = u.few; rptr_in = u.rptr_in; wptr_at = u.wptr_at })
      | inr e ↦ rw e v
    ]

poll_due_keeps :
    (c : SgiScc) (input : List ℕ)
    → IsValid c
    → contents ((poll_due c input).0) ++ (poll_due c input).1 ≡ contents c ++ input
unfolding poll_due rx_poll
poll_due_keeps c input v =
    let k = rx_drain_keeps (record c { rx_init = true }) input (omega arith) in
    elim (Bool-cases (leb c.rx_poll_at c.clk)) [ inl e ↦ rw e k | inr e ↦ rw e refl ]

tick-IsValid : (c : SgiScc) (d : ℕ) (input : List ℕ) → IsValid c → IsValid ((tick c d input).0)
unfolding tick
tick-IsValid c d input v =
    let now = record c { clk = u64 (c.clk + d) } in
    drain-IsValid 1 _ (drain-IsValid 0 _ (poll_due-IsValid now input (omega arith)))

tick_keeps :
    (c : SgiScc) (d : ℕ) (input : List ℕ)
    → IsValid c
    → contents ((tick c d input).0) ++ (tick c d input).1 ≡ contents c ++ input
unfolding tick
tick_keeps c d input v =
    let now = record c { clk = u64 (c.clk + d) } in
    let r = poll_due now input in
    rw (drain-contents 1 (drain 0 (r.0)), drain-contents 0 (r.0))
      (poll_due_keeps now input (omega arith))

pub step-IsValid : (o : Op) (w : Console) → IsValid w.scc → IsValid ((step o w).scc)
step-IsValid (typed bs) w v = v
step-IsValid (ticked d) w v = tick-IsValid w.scc d w.stdin v
step-IsValid (reads offs) w v = read-IsValid offs w.scc v
step-IsValid (writes offs b) w v = write-IsValid offs b w.scc v

-- All the bytes on their way to the guest, in order.
abbrev pub flow : Console → List ℕ
flow w = w.got ++ (contents w.scc ++ w.stdin)

flow-step : (o : Op) (w : Console) → IsValid w.scc → flow (step o w) ≡ flow w ++ typed_by o
flow-step (typed bs) w v = rw (append_assoc, append_assoc) refl
flow-step (ticked d) w v = rw (tick_keeps w.scc d w.stdin v, append-nil) refl
flow-step (reads offs) w v =
    rw (append_assoc, ← append_assoc (taken offs w.scc), ← read-contents offs w.scc, append-nil)
      refl
flow-step (writes offs b) w v = rw (write-contents offs b w.scc, append-nil) refl

-- For any sequence of typing on the standard input, ticks, reads and writes of the serial
-- controller, from a state whose receive ring is valid, the bytes that the guest has read,
-- those in the ring and those still waiting are, in order, the ones of the start with all that
-- was typed: none is lost, added or moved; and the ring stays valid, its count at most 8 and
-- its indices below 8.
pub run-flow :
    (ops : List Op) (w : Console)
    → IsValid w.scc
    → (flow (run ops w) ≡ flow w ++ all_typed ops) × IsValid ((run ops w).scc)
run-flow [] w v = (sym (append-nil (flow w)), v)
run-flow (o ∷ ops) w v =
    let (e, u) = run-flow ops (step o w) (step-IsValid o w v) in
    (e ∙ rw (flow-step o w v, append_assoc) refl, u)
