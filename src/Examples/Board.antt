-- ===== src/Examples/Board.antt =====
-- Runs of the devices of the board.
use interp_mips.Prelude.{
  ℕ, ◌+◌, ◌/◌, ◌%◌, ◌^◌, ◌≡◌, refl, arith, true, false, if◌then◌else◌, ltb, leb, some, none, List,
  [], ◌∷◌,
}
use interp_mips.Prelude.Int.{pos, negsuc}
use mathlib.Core.List.{◌++◌}
use interp_mips.Examples.{no_devices, ram}
use interp_mips.Serial
use interp_mips.Serial.{is_data_reg, chan, tx_drain_ticks}
use interp_mips.Serial.Fifo
use interp_mips.Serial.Fifo.{Console, flow, run-flow, typed, ticked, all_typed}
use interp_mips.Serial.Transmit
use interp_mips.Serial.Transmit.{ticks, transmit_takes_time}
use interp_mips.Ps2.Controller
use interp_mips.Ps2.Controller.{SgiPs2}
use interp_mips.Ps2.Mouse.{mouse}
use interp_mips.Ps2.Packets.{IsSplit, mouse-IsSplit}
use interp_mips.Ps2.Script.{Scripted, type_in}
use interp_mips.Ps2.Settled
use interp_mips.Ps2.Settled.{is_settled, run-is_settled, retrace}
use interp_mips.Mc.Registers
use interp_mips.Mc.Registers.{SgiMc}
use interp_mips.Mc.Dma.{Graphics, World, dma_perform}
use interp_mips.Mc.Access.{write}
use interp_mips.Mc.RoundTrip.{IsKept, write-IsKept}
use interp_mips.Mc.Transfer.{address_after, IsDone, dma_perform-IsDone}
use interp_mips.Mc.Eeprom.{IsCounted, taken, taken_by, clock_all, clock_all_within}

-- Two bytes typed, polled, and one of them read.
abbrev console : Console
console = record { scc = Serial.init; stdin = []; got = [] }

abbrev session : List Fifo.Op
session = typed (104 ∷ 105 ∷ []) ∷ ticked 1 ∷ Fifo.Op.reads 4 ∷ []

console-IsValid : Fifo.IsValid Serial.init
console-IsValid = omega arith

got-session : (Fifo.run session console).got ≡ 104 ∷ []
unfolding Serial.tick Serial.read
got-session = refl

run-flow_example :
    (flow (Fifo.run session console) ≡ flow console ++ all_typed session)
    × Fifo.IsValid (Fifo.run session console).scc
run-flow_example = run-flow session console console-IsValid

-- A character on channel A, and two ticks.
abbrev two_ticks : List (ℕ × List ℕ)
two_ticks = (1000, []) ∷ (23, []) ∷ []

transmit_takes_time_example :
    let t = ticks two_ticks (Serial.write 0xc 65 Serial.init) in
    (t.tx_busy (chan 0xc) ≡ ltb (Transmit.total two_ticks) tx_drain_ticks)
    × (t.tx_ip (chan 0xc) ≡ leb tx_drain_ticks (Transmit.total two_ticks))
transmit_takes_time_example =
    transmit_takes_time 0xc 65 Serial.init two_ticks refl (omega arith) (omega arith)

mouse-IsSplit_example :
    (ps : List (List ℕ)) × ((mouse (pos 300) (negsuc 2) 1 Controller.init).host_aux
      ≡ Controller.init.host_aux ++ ps)
    × IsSplit (pos 300) (negsuc 2) ps
mouse-IsSplit_example = mouse-IsSplit (pos 300) (negsuc 2) 1 Controller.init

-- An `A` typed by the script, handed over, and its first byte read.
abbrev typing : Scripted
typing = record { script = type_in (65 ∷ []) ∷ []; wait_until = 0; ps2 = Controller.init }

abbrev guest : List Settled.Op
guest = retrace 1 ∷ Settled.Op.reads false ∷ []

run-is_settled_example : is_settled (Settled.run guest typing).ps2 ≡ true
run-is_settled_example = run-is_settled guest typing refl

abbrev no_graphics : Graphics
no_graphics = record { Np = ℕ; attached = false; np_read = λ n a. (0, n); np_write = λ n a v. n }

abbrev world : World no_devices no_graphics
world = (ram, 0)

abbrev board : SgiMc
board = Registers.init 0x2320 0

-- The DMA size, written at one word of its slot and read at the other.
write-IsKept_example :
    IsKept no_devices no_graphics 0 0x2014 7 world
      (write no_devices no_graphics board 0x2010 7 world)
write-IsKept_example = write-IsKept no_devices no_graphics 0 board 0x2010 0x2014 7 world refl

-- Two lines of 4 bytes, upwards, with a stride of 8.
abbrev two_lines : SgiMc
two_lines = record board {
  dma_size = 0x20004;
  dma_count = 0x10004;
  dma_stride = 0x10008;
  dma_mode = 0x12;
  dma_memadr = 0x1000;
}

address_after-two_lines : address_after two_lines 2 4 0x1000 ≡ 0x1018
address_after-two_lines = refl

dma_perform-IsDone_example :
    IsDone two_lines
      (address_after two_lines (two_lines.dma_size / 2 ^ 16) (two_lines.dma_count % 2 ^ 16) 0x1000)
      ((dma_perform no_devices no_graphics two_lines world).0)
      ((dma_perform no_devices no_graphics two_lines world).2)
dma_perform-IsDone_example =
    dma_perform-IsDone no_devices no_graphics two_lines world refl (omega arith) (omega arith)
      (omega arith)

board-IsCounted : IsCounted board
board-IsCounted = omega arith

clock_all_within_example :
    taken_by (clock_all (6 ∷ 14 ∷ []) board)
    ≡ (if ltb (taken board + 2) 2056 then some (taken board + 2) else none)
clock_all_within_example = clock_all_within (6 ∷ 14 ∷ []) board board-IsCounted (omega arith) refl
