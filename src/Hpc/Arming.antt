-- ===== src/Hpc/Arming.antt =====
-- A write of the control register of a SCSI DMA channel that arms it, to the device.
use interp_mips.Prelude.{ℕ, ◌≡◌, refl, arith, true, false, is_set, clear_bit, ◌∙◌}
use interp_mips.Hpc.ScsiDma.{ch_fetch, Channel, take_control}

-- The channel that a write of x arms.
unfoldable pub armed : ℕ → Channel → Channel
armed x d = record d {
  ctrl = clear_bit (clear_bit x 0) 5;
  active = true;
  to_device = true;
  state = ch_fetch;
}

still_four : (x : ℕ) → is_set (clear_bit (clear_bit x 0) 5) 4 ≡ is_set x 4
still_four x = ground arith

still_two : (x : ℕ) → is_set (clear_bit (clear_bit x 0) 5) 2 ≡ is_set x 2
still_two x = ground arith

pub take_control-armed :
    (x : ℕ) (d : Channel)
    → d.active ≡ false
    → is_set x 4 ≡ true
    → is_set x 2 ≡ true
    → is_set x 5 ≡ false
    → is_set x 3 ≡ false
    → take_control x d ≡ armed x d
unfolding take_control armed
take_control-armed x d a four two five three =
    let on = still_four x ∙ four in
    let out = still_two x ∙ two in simp (five, three, a, on, out) refl
