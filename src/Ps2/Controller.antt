-- ===== src/Ps2/Controller.antt =====
-- The 8042 controller of sgi_ps2.cc: its registers and commands, and those of the keyboard and of
-- the mouse behind it. `irq_poke` is that field of `state_t`. The log is left out.
use interp_mips.Prelude.{
  ℕ, ◌+◌, ◌%◌, Bool, true, false, not, ◌&&◌, ◌||◌, if◌then◌else◌, ◌==◌, ltb, is_set, set_bit,
  clear_bit, List, [], ◌∷◌,
}
use mathlib.Core.List.{◌++◌}

pub record SgiPs2 : Type 0 where
  pub ccb : ℕ
  pub pending_cmd : ℕ
  pub obf : Bool
  pub aux_obf : Bool
  pub out : ℕ
  pub last_was_cmd : Bool
  pub kbd_q : List ℕ
  pub aux_q : List ℕ
  pub kbd_pending : ℕ
  pub kbd_enabled : Bool
  pub scan_set : ℕ
  pub aux_pending : ℕ
  pub aux_enabled : Bool
  pub mouse_buttons : ℕ
  pub host_kbd : List (List ℕ)
  pub host_aux : List (List ℕ)
  pub irq_poke : Bool

-- The member initialisers.
abbrev pub init : SgiPs2
init = record {
  ccb = 0x45;
  pending_cmd = 0;
  obf = false;
  aux_obf = false;
  out = 0;
  last_was_cmd = false;
  kbd_q = [];
  aux_q = [];
  kbd_pending = 0;
  kbd_enabled = true;
  scan_set = 2;
  aux_pending = 0;
  aux_enabled = false;
  mouse_buttons = 0;
  host_kbd = [];
  host_aux = [];
  irq_poke = false;
}

abbrev pub irq : SgiPs2 → Bool
irq p = p.obf && (if p.aux_obf then is_set p.ccb 1 else is_set p.ccb 0)

-- The interfaces that the command byte has turned off.
abbrev pub kbd_off : SgiPs2 → Bool
kbd_off p = is_set p.ccb 4

abbrev pub aux_off : SgiPs2 → Bool
aux_off p = is_set p.ccb 5

-- `push_back` on a queue.
abbrev pub to_kbd : List ℕ → SgiPs2 → SgiPs2
to_kbd bs p = record p { kbd_q = p.kbd_q ++ bs }

abbrev pub to_aux : List ℕ → SgiPs2 → SgiPs2
to_aux bs p = record p { aux_q = p.aux_q ++ bs }

-- The next byte for an empty output buffer.
abbrev take_aux : SgiPs2 → List ℕ → SgiPs2
take_aux p [] = p
take_aux p (b ∷ rest) =
    if aux_off p then p else record p { out = b; aux_q = rest; obf = true; aux_obf = true }

abbrev take_byte : SgiPs2 → List ℕ → SgiPs2
take_byte p [] = take_aux p p.aux_q
take_byte p (b ∷ rest) =
    if kbd_off p
    then take_aux p p.aux_q
    else record p { out = b; kbd_q = rest; obf = true; aux_obf = false }

abbrev pub poke : SgiPs2 → SgiPs2
poke p = record p { irq_poke = p.irq_poke || irq p }

unfoldable pub refill : SgiPs2 → SgiPs2
refill p = if p.obf then p else poke (take_byte p p.kbd_q)

abbrev pub status : SgiPs2 → ℕ
status p =
    (if p.obf then 0x01 else 0)
    + 0x04
    + (if p.last_was_cmd then 0x08 else 0)
    + 0x10
    + (if p.aux_obf then 0x20 else 0)

unfoldable pub read : Bool → SgiPs2 → ℕ × SgiPs2
unfolding refill
read cmd_port p =
    if cmd_port then (status p, p) else (p.out, refill (record p { obf = false; aux_obf = false }))

unfoldable pub ctl_cmd : ℕ → SgiPs2 → SgiPs2
ctl_cmd v p =
    if v == 0x20
    then record p { kbd_q = p.ccb ∷ p.kbd_q }
    else if v == 0x60 || v == 0xd1 || v == 0xd2 || v == 0xd3 || v == 0xd4
    then record p { pending_cmd = v }
    else if v == 0xa7
    then record p { ccb = set_bit p.ccb 5 }
    else if v == 0xa8
    then record p { ccb = clear_bit p.ccb 5 }
    else if v == 0xa9
    then to_kbd (0x00 ∷ []) p
    else if v == 0xaa
    then to_kbd (0x55 ∷ []) p
    else if v == 0xab
    then to_kbd (0x00 ∷ []) p
    else if v == 0xad
    then record p { ccb = set_bit p.ccb 4 }
    else if v == 0xae
    then record p { ccb = clear_bit p.ccb 4 }
    else if v == 0xc0
    then to_kbd (0x00 ∷ []) p
    else if v == 0xd0
    then to_kbd (0x01 ∷ []) p
    else p

-- The argument of a keyboard command; for 0xf0, zero asks for the scan code set.
unfoldable pub kbd_argument : ℕ → ℕ → SgiPs2 → SgiPs2
kbd_argument cmd v p =
    if cmd == 0xf0
    then (if v == 0
        then to_kbd (0xfa ∷ p.scan_set ∷ []) p
        else to_kbd (0xfa ∷ []) (record p { scan_set = v }))
    else if cmd == 0xfb || cmd == 0xfc || cmd == 0xfd
    then to_kbd (0xfa ∷ []) (record p { kbd_pending = cmd })
    else to_kbd (0xfa ∷ []) p

unfoldable pub kbd_command : ℕ → SgiPs2 → SgiPs2
kbd_command v p =
    if v == 0xff
    then to_kbd (0xfa ∷ 0xaa ∷ []) (record p { scan_set = 2; kbd_enabled = true })
    else if v == 0xf2
    then to_kbd (0xfa ∷ 0xab ∷ 0x83 ∷ []) p
    else if v == 0xee
    then to_kbd (0xee ∷ []) p
    else if v == 0xf4
    then to_kbd (0xfa ∷ []) (record p { kbd_enabled = true })
    else if v == 0xf5
    then to_kbd (0xfa ∷ []) (record p { kbd_enabled = false })
    else if v == 0xf6
    then to_kbd (0xfa ∷ []) (record p { kbd_enabled = true })
    else if v == 0xed || v == 0xf0 || v == 0xf3 || v == 0xfb || v == 0xfc || v == 0xfd
    then to_kbd (0xfa ∷ []) (record p { kbd_pending = v })
    else to_kbd (0xfa ∷ []) p

unfoldable pub kbd_cmd : ℕ → SgiPs2 → SgiPs2
unfolding kbd_argument kbd_command
kbd_cmd v p =
    let arg_of = p.kbd_pending in
    let q = record p { kbd_pending = 0 } in
    if not (arg_of == 0) && ltb v 0xed then kbd_argument arg_of v q else kbd_command v q

unfoldable pub aux_command : ℕ → SgiPs2 → SgiPs2
aux_command v p =
    if v == 0xff
    then to_aux (0xfa ∷ 0xaa ∷ 0x00 ∷ []) (record p { aux_enabled = false })
    else if v == 0xf2
    then to_aux (0xfa ∷ 0x00 ∷ []) p
    else if v == 0xf3 || v == 0xe8
    then to_aux (0xfa ∷ []) (record p { aux_pending = v })
    else if v == 0xf4
    then to_aux (0xfa ∷ []) (record p { aux_enabled = true })
    else if v == 0xf5 || v == 0xf6
    then to_aux (0xfa ∷ []) (record p { aux_enabled = false })
    else if v == 0xe9
    then to_aux
        (0xfa ∷ ((if p.aux_enabled then 0x20 else 0) + p.mouse_buttons % 8) ∷ 0x02 ∷ 0x64 ∷ []) p
    else if v == 0xeb
    then to_aux (0xfa ∷ (0x08 + p.mouse_buttons % 8) ∷ 0x00 ∷ 0x00 ∷ []) p
    else to_aux (0xfa ∷ []) p

unfoldable pub aux_cmd : ℕ → SgiPs2 → SgiPs2
unfolding aux_command
aux_cmd v p =
    if not (p.aux_pending == 0)
    then to_aux (0xfa ∷ []) (record p { aux_pending = 0 })
    else aux_command v p

-- A data byte, for the controller command that waits for one.
unfoldable pub data_byte : ℕ → ℕ → SgiPs2 → SgiPs2
unfolding aux_cmd kbd_cmd
data_byte pc v p =
    if pc == 0x60
    then record p { ccb = v }
    else if pc == 0xd1
    then p
    else if pc == 0xd2
    then to_kbd (v ∷ []) p
    else if pc == 0xd3
    then to_aux (v ∷ []) p
    else if pc == 0xd4
    then aux_cmd v p
    else kbd_cmd v p

unfoldable pub write : Bool → ℕ → SgiPs2 → SgiPs2
unfolding refill ctl_cmd data_byte
write cmd_port v p =
    let q = record p { last_was_cmd = cmd_port } in
    refill
      (if cmd_port then ctl_cmd v q else data_byte p.pending_cmd v (record q { pending_cmd = 0 }))
