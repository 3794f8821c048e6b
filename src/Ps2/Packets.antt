-- ===== src/Ps2/Packets.antt =====
-- The packets of a motion, read back as the PS/2 protocol has them.
use interp_mips.Prelude.{
  ℕ, zero, suc, ◌+◌, ◌-◌, ◌%◌, ◌<◌, ◌≤◌, ◌≡◌, refl, arith, Bool, true, false, ◌&&◌, if◌then◌else◌,
  is_set, List, [], ◌∷◌, Bool-cases, inl, inr, ap, sym, ◌∙◌, ltb,
}
use interp_mips.Prelude.Int.{ℤ, pos, negsuc, sub_ℕ, ◌+ℤ◌, ◌-ℤ◌}
use mathlib.Core.List.{◌++◌}
use interp_mips.Ps2.Controller.{SgiPs2}
use interp_mips.Ps2.Mouse.{clamp, packet, packets, is_zero, negated, abs, mouse}

-- The motion of a packet: nine bits each, the sign in the first byte; y is up.
abbrev pub x_of : List ℕ → ℤ
x_of (b ∷ x ∷ y ∷ []) = sub_ℕ x (if is_set b 4 then 256 else 0)
x_of _ = pos 0

abbrev pub y_of : List ℕ → ℤ
y_of (b ∷ x ∷ y ∷ []) = sub_ℕ y (if is_set b 5 then 256 else 0)
y_of _ = pos 0

abbrev pub total : (List ℕ → ℤ) → List (List ℕ) → ℤ
total f [] = pos 0
total f (e ∷ es) = f e +ℤ total f es

abbrev IsSmall : ℤ → Type 0
IsSmall d = abs d ≤ 255

clamp-IsSmall : (d : ℤ) → IsSmall (clamp 255 d)
unfolding clamp
clamp-IsSmall (pos n) = ground arith
clamp-IsSmall (negsuc n) = ground arith

packet-x : (b : ℕ) (px py : ℤ) → b < 8 → IsSmall px → x_of (packet b px py) ≡ px
unfolding packet ◌-ℤ◌
packet-x b (pos n) py h k = ground arith
packet-x b (negsuc n) py h k = ground arith

packet-y : (b : ℕ) (px py : ℤ) → b < 8 → IsSmall py → y_of (packet b px py) ≡ negated py
unfolding packet ◌-ℤ◌
packet-y b px (pos n) h k = ground arith
packet-y b px (negsuc n) h k = ground arith

clamp_rest : (d : ℤ) → clamp 255 d +ℤ (d -ℤ clamp 255 d) ≡ d
unfolding clamp ◌+ℤ◌ ◌-ℤ◌
clamp_rest (pos n) = ground arith
clamp_rest (negsuc n) = ground arith

rest_abs : (d : ℤ) → abs (d -ℤ clamp 255 d) ≡ abs d - 255
unfolding clamp ◌-ℤ◌
rest_abs (pos n) = ground arith
rest_abs (negsuc n) = ground arith

zero_of_abs : (d : ℤ) → is_zero d ≡ true → d ≡ pos 0
zero_of_abs (pos n) h = ap pos (ground arith)
zero_of_abs (negsuc n) h = ground arith

add_zero : (d : ℤ) → d +ℤ pos 0 ≡ d
unfolding ◌+ℤ◌
add_zero (pos n) = ground arith
add_zero (negsuc n) = ground arith

negated_add : (a b : ℤ) → negated (a +ℤ b) ≡ negated a +ℤ negated b
unfolding ◌+ℤ◌ ◌-ℤ◌
negated_add (pos n) (pos k) = ground arith
negated_add (pos n) (negsuc k) = ground arith
negated_add (negsuc n) (pos k) = ground arith
negated_add (negsuc n) (negsuc k) = ground arith

-- Three bytes.
abbrev pub is_packet : List ℕ → Bool
is_packet (b ∷ x ∷ y ∷ []) = ltb b 256 && ltb x 256 && ltb y 256
is_packet _ = false

abbrev pub all_packets : List (List ℕ) → Bool
all_packets [] = true
all_packets (e ∷ es) = is_packet e && all_packets es

packet-is_packet : (b : ℕ) (px py : ℤ) → b < 8 → is_packet (packet b px py) ≡ true
unfolding packet
packet-is_packet b px py h = ground arith

-- What the packets of a motion add up to.
pub record IsSplit (dx dy : ℤ) (ps : List (List ℕ)) : Type 0 where
  pub x : total x_of ps ≡ dx
  pub y : total y_of ps ≡ negated dy
  pub bytes : all_packets ps ≡ true

-- A last packet, and one before others.
last-IsSplit :
    (b : ℕ) (dx dy : ℤ)
    → b < 8
    → (is_zero (dx -ℤ clamp 255 dx) && is_zero (dy -ℤ clamp 255 dy)) ≡ true
    → IsSplit dx dy (packet b (clamp 255 dx) (clamp 255 dy) ∷ [])
last-IsSplit b dx dy h z =
    let zx = zero_of_abs (dx -ℤ clamp 255 dx) (ground arith) in
    let zy = zero_of_abs (dy -ℤ clamp 255 dy) (ground arith) in
    let ex = clamp_rest dx in
    let ey = clamp_rest dy in
    record {
      x = ap (λ a. a +ℤ pos 0) (packet-x b _ (clamp 255 dy) h (clamp-IsSmall dx)) ∙ rw (← zx) ex;
      y =
          add_zero _
          ∙ (packet-y b (clamp 255 dx) _ h (clamp-IsSmall dy)
              ∙ ap negated (sym (add_zero (clamp 255 dy)) ∙ rw (← zy) ey));
      bytes = rw (packet-is_packet b (clamp 255 dx) (clamp 255 dy) h) refl;
    }

next-IsSplit :
    (b : ℕ) (dx dy : ℤ) (ps : List (List ℕ))
    → b < 8
    → IsSplit (dx -ℤ clamp 255 dx) (dy -ℤ clamp 255 dy) ps
    → IsSplit dx dy (packet b (clamp 255 dx) (clamp 255 dy) ∷ ps)
next-IsSplit b dx dy ps h i = record {
  x = rw (packet-x b (clamp 255 dx) (clamp 255 dy) h (clamp-IsSmall dx), i.x) (clamp_rest dx);
  y =
      rw (packet-y b (clamp 255 dx) (clamp 255 dy) h (clamp-IsSmall dy), i.y)
        (sym (negated_add _ _) ∙ ap negated (clamp_rest dy));
  bytes = rw (packet-is_packet b (clamp 255 dx) (clamp 255 dy) h, i.bytes) refl;
}

packets-IsSplit :
    (n b : ℕ) (dx dy : ℤ) → b < 8 → abs dx + abs dy < n → IsSplit dx dy (packets n b dx dy)
unfolding packets
packets-IsSplit zero b dx dy h k = absurd (omega arith)
packets-IsSplit (suc n) b dx dy h k =
    let ax = rest_abs dx in
    let ay = rest_abs dy in
    elim (Bool-cases (is_zero (dx -ℤ clamp 255 dx) && is_zero (dy -ℤ clamp 255 dy))) [
      | inl e ↦ rw e (last-IsSplit b dx dy h e)
      | inr e ↦ rw e (
          next-IsSplit b dx dy _ h
            (packets-IsSplit n b (dx -ℤ clamp 255 dx) (dy -ℤ clamp 255 dy) h (ground arith)))
    ]

-- For any motion and buttons, mouse appends packets of three bytes to the events of the host
-- whose nine-bit motions, read as the protocol has them, add up to the motion in x and to its
-- opposite in y.
pub mouse-IsSplit :
    (dx dy : ℤ) (buttons : ℕ) (p : SgiPs2)
    → (ps : List (List ℕ)) × ((mouse dx dy buttons p).host_aux ≡ p.host_aux ++ ps)
      × IsSplit dx dy ps
unfolding mouse
mouse-IsSplit dx dy buttons p =
    let n = suc (abs dx + abs dy) in
    let ps = packets n (buttons % 8) dx dy in
    (ps, refl, packets-IsSplit n (buttons % 8) dx dy (omega arith) (omega arith))
