-- ===== src/Examples/Network.antt =====
-- A run of the Ethernet controller.
use interp_mips.Prelude.{ℕ, ◌≡◌, refl, true, List, [], ◌∷◌}
use mathlib.Core.List.{◌++◌}
use interp_mips.Seeq
use interp_mips.Seeq.{stage, raise_interrupt, address_filter, rx_avail, rx_dma_r}
use interp_mips.Seeq.Stream.{Guest, staged, flow}
use interp_mips.Seeq.Runs
use interp_mips.Seeq.Runs.{Op, arrives, takes_byte, writes, all_arrived, run-staged}

abbrev host : Guest
host = record { seeq = Seeq.init true; frames = []; partial = [] }

-- A frame of 14 bytes, of which the first six are its destination.
abbrev hello : List ℕ
hello = 1 ∷ 2 ∷ 3 ∷ 4 ∷ 5 ∷ 6 ∷ 7 ∷ 8 ∷ 9 ∷ 10 ∷ 11 ∷ 12 ∷ 8 ∷ 0 ∷ []

-- The receiver takes every frame; one arrives, and two of its bytes are taken.
abbrev session : List Op
session = writes 6 0x40 ∷ arrives (hello ∷ []) ∷ takes_byte ∷ takes_byte ∷ []

all_arrived-session : all_arrived session host ≡ hello ∷ []
unfolding address_filter Seeq.pio_w Seeq.poll
all_arrived-session = refl

run-staged_example : flow (Runs.run session host) ≡ flow host ++ staged (all_arrived session host)
run-staged_example = run-staged session host refl
