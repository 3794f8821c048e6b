-- ===== src/Ps2/Settled.antt =====
-- No byte waits behind an empty output buffer of the keyboard controller.
use interp_mips.Prelude.{
  ℕ, zero, suc, ◌+◌, leb, ◌≡◌, refl, arith, Bool, true, false, not, ◌&&◌, ◌||◌, List, [], ◌∷◌,
  Bool-cases, Option-cases, inl, inr, ◌∙◌,
}
use interp_mips.Prelude.Int.{ℤ, ◌-ℤ◌}
use interp_mips.Ps2.Controller.{
  SgiPs2, kbd_off, aux_off, refill, read, write, ctl_cmd, kbd_cmd, kbd_argument, kbd_command,
  aux_cmd, aux_command, data_byte,
}
use interp_mips.Ps2.Mouse.{is_empty, mouse, deliver, hand_kbd, hand_aux, is_zero, clamp, abs}
use interp_mips.Ps2.Keys.{find_key, key, char_key, type_char, type_text}
use interp_mips.Ps2.Script.{
  Command, wait, until, type_in, press_key, hold_key, move, click, press, release, ppm, unknown,
  Scripted, step_of, move_loop, run_command, run_script, service,
}

-- With the output buffer empty, each queue is empty or its interface off, and no byte is from the
-- mouse.
abbrev pub is_settled : SgiPs2 → Bool
is_settled p =
    p.obf || ((is_empty p.kbd_q || kbd_off p) && (is_empty p.aux_q || aux_off p) && not p.aux_obf)

refill-is_settled : (p : SgiPs2) → (p.obf || not p.aux_obf) ≡ true → is_settled (refill p) ≡ true
unfolding refill
refill-is_settled p h = ground arith

-- The output buffer holds no byte of the mouse where it is empty.
abbrev pub is_marked : SgiPs2 → Bool
is_marked p = p.obf || not p.aux_obf

settled-marked : (p : SgiPs2) → is_settled p ≡ true → is_marked p ≡ true
settled-marked p h = ground arith

ctl_cmd-marked : (v : ℕ) (p : SgiPs2) → is_marked (ctl_cmd v p) ≡ is_marked p
unfolding ctl_cmd
ctl_cmd-marked v p = ground arith

kbd_cmd-marked : (v : ℕ) (p : SgiPs2) → is_marked (kbd_cmd v p) ≡ is_marked p
unfolding kbd_cmd kbd_argument kbd_command
kbd_cmd-marked v p = ground arith

aux_cmd-marked : (v : ℕ) (p : SgiPs2) → is_marked (aux_cmd v p) ≡ is_marked p
unfolding aux_cmd aux_command
aux_cmd-marked v p = ground arith

data_byte-marked : (pc v : ℕ) (p : SgiPs2) → is_marked (data_byte pc v p) ≡ is_marked p
unfolding data_byte
data_byte-marked pc v p = ground (arith, kbd_cmd-marked v p, aux_cmd-marked v p)

write-is_settled :
    (cmd_port : Bool) (v : ℕ) (p : SgiPs2)
    → is_settled p ≡ true
    → is_settled (write cmd_port v p) ≡ true
unfolding write
write-is_settled true v p h =
    let q = record p { last_was_cmd = true } in
    refill-is_settled (ctl_cmd v q) (ctl_cmd-marked v q ∙ settled-marked p h)
write-is_settled false v p h =
    let q = record p { last_was_cmd = false; pending_cmd = 0 } in
    refill-is_settled (data_byte p.pending_cmd v q)
      (data_byte-marked p.pending_cmd v q ∙ settled-marked p h)

read-is_settled :
    (cmd_port : Bool) (p : SgiPs2) → is_settled p ≡ true → is_settled ((read cmd_port p).1) ≡ true
unfolding read
read-is_settled true p h = h
read-is_settled false p h = refill-is_settled (record p { obf = false; aux_obf = false }) refl

key-is_settled :
    (name : List ℕ) (down : Bool) (p : SgiPs2) → is_settled ((key name down p).1) ≡ is_settled p
unfolding key
key-is_settled name down p = elim (Option-cases (find_key name)) [
  | inl e ↦ rw e refl
  | inr (k, e) ↦ rw e refl
]

mouse-is_settled :
    (dx dy : ℤ) (buttons : ℕ) (p : SgiPs2) → is_settled (mouse dx dy buttons p) ≡ is_settled p
unfolding mouse
mouse-is_settled dx dy buttons p = refl

deliver-is_settled : (p : SgiPs2) → is_settled p ≡ true → is_settled (deliver p) ≡ true
unfolding deliver
deliver-is_settled p h =
    let q = hand_kbd p.host_kbd p in refill-is_settled (hand_aux q.host_aux q) (ground arith)

type_char-is_settled : (c : ℕ) (p : SgiPs2) → is_settled (type_char c p) ≡ is_settled p
unfolding type_char
type_char-is_settled c p = elim (Bool-cases ((char_key c).1)) [
  | inl e ↦ rw (e, key-is_settled, key-is_settled, key-is_settled) refl
  | inr e ↦ rw (e, key-is_settled, key-is_settled) refl
]

type_text-is_settled : (t : List ℕ) (p : SgiPs2) → is_settled (type_text t p) ≡ is_settled p
unfolding type_text
type_text-is_settled [] p = refl
type_text-is_settled (c ∷ t) p = type_text-is_settled t (type_char c p) ∙ type_char-is_settled c p

move_loop-is_settled :
    (n step : ℕ) (dx dy : ℤ) (p : SgiPs2) → is_settled (move_loop n step dx dy p) ≡ is_settled p
unfolding move_loop mouse
move_loop-is_settled zero step dx dy p = refl
move_loop-is_settled (suc n) step dx dy p = elim (Bool-cases (is_zero dx && is_zero dy)) [
  | inl e ↦ rw e refl
  | inr e ↦ rw e (move_loop-is_settled n step (dx -ℤ clamp step dx) (dy -ℤ clamp step dy) _)
]

run_command-is_settled :
    (icnt : ℕ) (l : Command) (w : ℕ) (p : SgiPs2)
    → is_settled ((run_command icnt l w p).1) ≡ is_settled p
unfolding run_command
run_command-is_settled icnt (wait n) w p = refl
run_command-is_settled icnt (until n) w p = refl
run_command-is_settled icnt (type_in t) w p = type_text-is_settled t p
run_command-is_settled icnt (press_key k) w p = rw (key-is_settled, key-is_settled) refl
run_command-is_settled icnt (hold_key k down) w p = key-is_settled k down p
run_command-is_settled icnt (move dx dy step) w p =
    move_loop-is_settled (abs dx + abs dy) (step_of step) dx dy p
run_command-is_settled icnt (click n) w p = rw (mouse-is_settled, mouse-is_settled) refl
run_command-is_settled icnt (press n) w p = rw mouse-is_settled refl
run_command-is_settled icnt (release n) w p = rw mouse-is_settled refl
run_command-is_settled icnt ppm w p = refl
run_command-is_settled icnt unknown w p = refl

run_script-is_settled :
    (icnt : ℕ) (ls : List Command) (w : ℕ) (p : SgiPs2)
    → is_settled (run_script icnt ls w p).ps2 ≡ is_settled p
unfolding run_script
run_script-is_settled icnt [] w p = refl
run_script-is_settled icnt (l ∷ ls) w p =
    let next = run_command icnt l w p in
    elim (Bool-cases (leb w icnt && (is_empty p.host_kbd && is_empty p.host_aux))) [
      | inl e ↦
          rw e (run_script-is_settled icnt ls (next.0) (next.1) ∙ run_command-is_settled icnt l w p)
      | inr e ↦ rw e refl
    ]

-- What the guest and the host do to the controller.
pub data Op : Type 0 where
  reads : Bool → Op
  writes : Bool → ℕ → Op
  retrace : ℕ → Op

abbrev pub step : Op → Scripted → Scripted
step (reads cmd_port) t = record t { ps2 = (read cmd_port t.ps2).1 }
step (writes cmd_port v) t = record t { ps2 = write cmd_port v t.ps2 }
step (retrace icnt) t = service icnt t

abbrev pub run : List Op → Scripted → Scripted
run [] t = t
run (o ∷ ops) t = run ops (step o t)

step-is_settled :
    (o : Op) (t : Scripted) → is_settled t.ps2 ≡ true → is_settled (step o t).ps2 ≡ true
unfolding service
step-is_settled (reads cmd_port) t h = read-is_settled cmd_port t.ps2 h
step-is_settled (writes cmd_port v) t h = write-is_settled cmd_port v t.ps2 h
step-is_settled (retrace icnt) t h =
    let r = run_script icnt t.script t.wait_until t.ps2 in
    deliver-is_settled r.ps2 (run_script-is_settled icnt t.script t.wait_until t.ps2 ∙ h)

-- No byte is stuck in the keyboard controller: after any sequence of reads, writes and
-- retraces, with any input script, from a state for which this holds, either the output buffer
-- is full, or each of the two queues is empty or its interface disabled, and the buffer is not
-- marked as the mouse's.
pub run-is_settled :
    (ops : List Op) (t : Scripted) → is_settled t.ps2 ≡ true → is_settled (run ops t).ps2 ≡ true
run-is_settled [] t h = h
run-is_settled (o ∷ ops) t h = run-is_settled ops (step o t) (step-is_settled o t h)
