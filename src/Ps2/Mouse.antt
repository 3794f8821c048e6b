-- ===== src/Ps2/Mouse.antt =====
-- The mouse of sgi_ps2.cc: a motion split into packets, and their delivery by `service`. The input
-- script runs before (Script).
use interp_mips.Prelude.{
  ℕ, zero, suc, ◌+◌, ◌-◌, ◌%◌, Bool, true, false, not, ◌&&◌, if◌then◌else◌, ◌==◌, ltb, u8, List, [],
  ◌∷◌,
}
use interp_mips.Prelude.Int.{ℤ, pos, negsuc, pos_part, neg_part, ◌-ℤ◌}
use mathlib.Core.List.{◌++◌}
use interp_mips.Ps2.Controller.{SgiPs2, refill, to_kbd, to_aux}

-- `d > k ? k : (d < -k ? -k : d)`, for 0 < k.
unfoldable pub clamp : ℕ → ℤ → ℤ
clamp k (pos n) = if ltb k n then pos k else pos n
clamp k (negsuc n) = if ltb k (suc n) then negsuc (k - 1) else negsuc n

abbrev pub is_zero : ℤ → Bool
is_zero d = (pos_part d == 0) && (neg_part d == 0)

abbrev pub is_negative : ℤ → Bool
is_negative d = not (neg_part d == 0)

abbrev pub negated : ℤ → ℤ
negated d = pos 0 -ℤ d

-- (uint8_t)d, for -255 <= d.
abbrev pub byte_of : ℤ → ℕ
byte_of d = u8 (pos_part d + 256 - neg_part d)

-- One packet: the buttons with the signs, and the two motions, y up.
unfoldable pub packet : ℕ → ℤ → ℤ → List ℕ
packet buttons px py =
    let my = negated py in
    (0x08 + buttons + (if is_negative px then 0x10 else 0) + (if is_negative my then 0x20 else 0))
    ∷ byte_of px
    ∷ byte_of my
    ∷ []

-- The loop of `mouse`: the packets of a motion, on fuel.
unfoldable pub packets : ℕ → ℕ → ℤ → ℤ → List (List ℕ)
unfolding clamp packet ◌-ℤ◌
packets zero buttons dx dy = []
packets (suc n) buttons dx dy =
    let px = clamp 255 dx in
    let py = clamp 255 dy in
    let rest = packets n buttons (dx -ℤ px) (dy -ℤ py) in
    packet buttons px py ∷ (if is_zero (dx -ℤ px) && is_zero (dy -ℤ py) then [] else rest)

abbrev pub abs : ℤ → ℕ
abs d = pos_part d + neg_part d

unfoldable pub mouse : ℤ → ℤ → ℕ → SgiPs2 → SgiPs2
unfolding packets
mouse dx dy buttons p = record p {
  mouse_buttons = buttons % 8;
  host_aux = p.host_aux ++ packets (suc (abs dx + abs dy)) (buttons % 8) dx dy;
}

abbrev pub is_empty {ℓ} : {A : Type ℓ} → List A → Bool
is_empty [] = true
is_empty (_ ∷ _) = false

-- One event of the host for a device, where its queue is empty.
abbrev pub hand_kbd : List (List ℕ) → SgiPs2 → SgiPs2
hand_kbd [] p = p
hand_kbd (e ∷ rest) p =
    if is_empty p.kbd_q && p.kbd_enabled then to_kbd e (record p { host_kbd = rest }) else p

abbrev pub hand_aux : List (List ℕ) → SgiPs2 → SgiPs2
hand_aux [] p = p
hand_aux (e ∷ rest) p =
    if is_empty p.aux_q
    then (if p.aux_enabled
        then to_aux e (record p { host_aux = rest })
        else record p { host_aux = rest })
    else p

-- `service` after its script.
unfoldable pub deliver : SgiPs2 → SgiPs2
unfolding refill
deliver p = let q = hand_kbd p.host_kbd p in refill (hand_aux q.host_aux q)
