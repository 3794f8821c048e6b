-- ===== src/Ps2/Script.antt =====
-- The input script of sgi_ps2.cc, and `service`. A command is what the C library's parsing makes of
-- a line; a picture of the display is not modelled.
use interp_mips.Prelude.{
  ℕ, zero, suc, ◌+◌, ◌%◌, Bool, true, false, ◌&&◌, if◌then◌else◌, ◌==◌, leb, u64, set_bit,
  clear_bit, List, [], ◌∷◌,
}
use interp_mips.Prelude.Int.{ℤ, pos, negsuc, ◌-ℤ◌}
use interp_mips.Ps2.Controller.{SgiPs2}
use interp_mips.Ps2.Keys.{key, type_text}
use interp_mips.Ps2.Mouse.{clamp, is_zero, abs, mouse, is_empty, deliver}

pub data Command : Type 0 where
  wait : ℕ → Command
  until : ℕ → Command
  type_in : List ℕ → Command
  press_key : List ℕ → Command
  hold_key : List ℕ → Bool → Command
  move : ℤ → ℤ → ℤ → Command
  click : ℕ → Command
  press : ℕ → Command
  release : ℕ → Command
  ppm : Command
  unknown : Command

-- The loop of `move`: one packet of at most `step` on each axis at a time, on fuel.
unfoldable pub move_loop : ℕ → ℕ → ℤ → ℤ → SgiPs2 → SgiPs2
unfolding mouse clamp ◌-ℤ◌
move_loop zero step dx dy p = p
move_loop (suc n) step dx dy p =
    let sx = clamp step dx in
    let sy = clamp step dy in
    let moved = move_loop n step (dx -ℤ sx) (dy -ℤ sy) (mouse sx sy p.mouse_buttons p) in
    if is_zero dx && is_zero dy then p else moved

-- `step` below 1 is 1.
abbrev pub step_of : ℤ → ℕ
step_of (pos n) = if n == 0 then 1 else n
step_of (negsuc n) = 1

-- The bit of a button, by `n & 3`: left, left, right, middle.
abbrev pub button_bit : ℕ → ℕ
button_bit n = if n % 4 == 2 then 2 else if n % 4 == 3 then 1 else 0

abbrev pub push_button : ℕ → SgiPs2 → SgiPs2
push_button n p = mouse (pos 0) (pos 0) (set_bit p.mouse_buttons (button_bit n)) p

abbrev pub let_go : ℕ → SgiPs2 → SgiPs2
let_go n p = mouse (pos 0) (pos 0) (clear_bit p.mouse_buttons (button_bit n)) p

-- A command, at the instruction count `icnt`; the first part is the new `script_wait_until`.
unfoldable pub run_command : ℕ → Command → ℕ → SgiPs2 → ℕ × SgiPs2
unfolding key type_text move_loop mouse
run_command icnt (wait n) w p = (u64 (icnt + n), p)
run_command icnt (until n) w p = (n, p)
run_command icnt (type_in t) w p = (w, type_text t p)
run_command icnt (press_key k) w p = (w, (key k false ((key k true p).1)).1)
run_command icnt (hold_key k down) w p = (w, (key k down p).1)
run_command icnt (move dx dy step) w p = (w, move_loop (abs dx + abs dy) (step_of step) dx dy p)
run_command icnt (click n) w p = (w, let_go n (push_button n p))
run_command icnt (press n) w p = (w, push_button n p)
run_command icnt (release n) w p = (w, let_go n p)
run_command icnt ppm w p = (w, p)
run_command icnt unknown w p = (w, p)

-- The commands that are left, the time until which the script waits, and the controller.
pub record Scripted : Type 0 where
  pub script : List Command
  pub wait_until : ℕ
  pub ps2 : SgiPs2

unfoldable pub run_script : ℕ → List Command → ℕ → SgiPs2 → Scripted
unfolding run_command
run_script icnt [] w p = record { script = []; wait_until = w; ps2 = p }
run_script icnt (l ∷ ls) w p =
    let next = run_command icnt l w p in
    let rest = run_script icnt ls (next.0) (next.1) in
    if leb w icnt && (is_empty p.host_kbd && is_empty p.host_aux)
    then rest
    else record { script = l ∷ ls; wait_until = w; ps2 = p }

unfoldable pub service : ℕ → Scripted → Scripted
unfolding run_script deliver
service icnt t =
    let r = run_script icnt t.script t.wait_until t.ps2 in record r { ps2 = deliver r.ps2 }
