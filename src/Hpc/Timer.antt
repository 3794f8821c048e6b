-- ===== src/Hpc/Timer.antt =====
-- Counter 2 of the i8254 in sgi_hpc: its value, its load in two bytes, and the latch.
use interp_mips.Prelude.{
  ℕ, ◌+◌, ◌-◌, ◌/◌, ◌%◌, ◌^◌, Bool, false, true, if◌then◌else◌, ◌==◌, leb, u8, u16, sub32, u32,
  bits, ◌<<<◌,
}

pub record Counter2 : Type 0 where
  pub load : ℕ
  pub count_at_load : ℕ
  pub latch : ℕ
  pub wr_phase : ℕ
  pub rd_phase : ℕ
  pub loading : Bool

abbrev pub t2_ratio : ℕ
t2_ratio = 50

-- The value at a CP0 Count.
unfoldable pub t2_value : ℕ → Counter2 → ℕ
t2_value count t =
    let dec = sub32 count (u32 t.count_at_load) / t2_ratio in
    if leb t.load dec then 0 else u16 (t.load - dec)

-- The control word at 0x598bf: a latch, or the start of a load.
unfoldable pub write_tcword : ℕ → ℕ → Counter2 → Counter2
unfolding t2_value
write_tcword count x t =
    if bits x 4 2 == 0
    then record t { latch = t2_value count t; rd_phase = 0 }
    else record t { loading = true; wr_phase = 0 }

-- The counter at 0x598bb, the low byte first.
unfoldable pub write_tcnt2 : ℕ → ℕ → Counter2 → Counter2
write_tcnt2 count x t =
    if t.loading
    then (if t.wr_phase == 0
        then record t { load = bits t.load 8 8 <<< 8 + x % 2 ^ 8; wr_phase = 1 }
        else record t {
          load = t.load % 2 ^ 8 + (x % 2 ^ 8) <<< 8;
          wr_phase = 0;
          loading = false;
          count_at_load = count;
        })
    else t

unfoldable pub read_tcnt2 : Counter2 → ℕ × Counter2
read_tcnt2 t = (
  if t.rd_phase == 0 then u8 t.latch else bits t.latch 8 8,
  record t { rd_phase = if t.rd_phase == 0 then 1 else 0 },
)
