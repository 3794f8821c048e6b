-- ===== src/Dispatch/Depth.antt =====
-- How deep the calls of `execMips` go: one for an instruction, and one more for each jump that
-- stands in the delay slot of another.
use interp_mips.Prelude.{
  ℕ, zero, suc, ◌≤◌, ◌≡◌, refl, arith, Bool, true, false, not, ◌||◌, Option, some, none, inl, inr,
  Option-cases,
}
use interp_mips.Cpu.{State, Outcome}
use interp_mips.Memory.Sparse.{Devices}
use interp_mips.Memory.Access.{Machine}
use interp_mips.Dispatch.Gates.{gates}
use interp_mips.Dispatch.Step.{decode, fetch_inst, run_fetched, nest}
use interp_mips.Dispatch.Slot.{is_jump, slot_machine}
use interp_mips.Dispatch.Agree.{dispatch_agrees}

module _ (V : Devices) (r5000 : Bool) (arithmetic : ℕ → State → Outcome State)
    (coproc1x : ℕ → Machine V → Outcome (Machine V)) where
  decode_agrees :
      (exec other : Machine V → Outcome (Machine V)) (inst : ℕ) (c : Machine V)
      → (is_jump inst ≡ true → exec (slot_machine V inst c) ≡ other (slot_machine V inst c))
      → decode V r5000 arithmetic coproc1x exec inst c
        ≡ decode V r5000 arithmetic coproc1x other inst c
  unfolding decode
  decode_agrees exec other inst (s, m) h = elim (Option-cases (gates r5000 inst s)) [
    | inl n ↦ rw n (dispatch_agrees V exec other r5000 arithmetic coproc1x inst s m h)
    | inr (t, n) ↦ rw n refl
  ]

  -- Whether the chain of jumps, each in the delay slot of the one before, that starts at what was
  -- fetched ends within n calls.
  abbrev pub ends_within : ℕ → Option ℕ × Machine V → Bool
  ends_within zero f = false
  ends_within (suc n) (none, c) = true
  ends_within (suc n) (some inst, c) =
      not (is_jump inst) || ends_within n (fetch_inst V (slot_machine V inst c))

  module _ (bottom other : Machine V → Outcome (Machine V)) where
    run_settles :
        (n d : ℕ) (f : Option ℕ × Machine V)
        → ((c : Machine V)
            → ends_within n (fetch_inst V c) ≡ true
            → nest V r5000 arithmetic coproc1x d bottom c
              ≡ nest V r5000 arithmetic coproc1x n other c)
        → ends_within (suc n) f ≡ true
        → run_fetched V r5000 arithmetic coproc1x (nest V r5000 arithmetic coproc1x d bottom) f
          ≡ run_fetched V r5000 arithmetic coproc1x (nest V r5000 arithmetic coproc1x n other) f
    run_settles n d (none, c) ih h = refl
    run_settles n d (some inst, c) ih h =
        decode_agrees _ _ inst c (λ j. ih (slot_machine V inst c) (rw j at h))

    -- The recursion of execMips through its delay slots ends by itself: where the chain of
    -- instructions that starts at a machine, each but the first fetched in the delay slot
    -- of the jump before it, comes within n instructions to one without a delay slot or to
    -- a fetch that faults, any number of calls from n on gives the same result, whatever
    -- stands at the bottom of the calls.
    pub nest_settles :
        (n d : ℕ) (c : Machine V)
        → n ≤ d
        → ends_within n (fetch_inst V c) ≡ true
        → nest V r5000 arithmetic coproc1x d bottom c ≡ nest V r5000 arithmetic coproc1x n other c
    unfolding nest
    nest_settles zero d c l h = absurd (cc)
    nest_settles (suc n) zero c l h = absurd (omega arith)
    nest_settles (suc n) (suc d) c l h =
        run_settles n d (fetch_inst V c) (λ x. nest_settles n d x (omega arith)) h
