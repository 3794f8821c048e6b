-- ===== src/Hpc/Latch.antt =====
-- A program of the timer of sgi_hpc and a latched read of it, as the kernel calibrates its clock.
use interp_mips.Prelude.{
  ℕ, ◌+◌, ◌-◌, ◌/◌, ◌%◌, ◌^◌, ◌<◌, ◌≡◌, ◌≢◌, arith, if◌then◌else◌, leb, sub32, u32, bits, ◌<<<◌,
}
use interp_mips.Hpc.Timer.{Counter2, t2_ratio, t2_value, write_tcword, write_tcnt2, read_tcnt2}

-- A load of `n` at a Count, under a control word that is no latch.
abbrev pub programmed : ℕ → ℕ → ℕ → Counter2 → Counter2
programmed word n count t =
    write_tcnt2 count (n / 2 ^ 8) (write_tcnt2 count (n % 2 ^ 8) (write_tcword count word t))

-- A latch under a control word, and the two reads after it, put together.
abbrev pub latched : ℕ → ℕ → Counter2 → ℕ
latched word count t =
    let low = read_tcnt2 (write_tcword count word t) in
    let high = read_tcnt2 (low.1) in low.0 + high.0 <<< 8

-- Counter 2 of the timer, loaded with a value below 2 ^ 16 in two bytes at one Count and
-- latched at another: the two bytes read are the value less one for every 50 of the 32-bit
-- distance, and 0 from the value on, whatever the counter held before.
pub latched-programmed :
    (t : Counter2) (word n start count control : ℕ)
    → n < 2 ^ 16
    → bits word 4 2 ≢ 0
    → bits control 4 2 ≡ 0
    → latched control count (programmed word n start t) ≡ (
        if leb n (sub32 count (u32 start) / t2_ratio)
        then 0
        else n - sub32 count (u32 start) / t2_ratio)
unfolding write_tcword write_tcnt2 read_tcnt2 t2_value
latched-programmed t word n start count control h w c = ground arith
