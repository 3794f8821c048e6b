-- ===== src/Lib.antt =====
-- A model of interp_mips, an instruction-set simulator of a big-endian MIPS III/IV processor
-- (R4400, R5000) that boots SGI operating systems, and of the theorems that make its core right.
--
-- The program. `execMips` (interpret.cc) fetches an instruction, decodes it and changes a `state_t`
-- (interpret.hh). Every access to memory goes through `va_translate`, which looks in a micro-TLB
-- and then in the 48 entries, or raises a TLB exception; the physical address then goes to
-- `sparse_mem` (sparse_mem.hh), which answers from memory or routes the access to a device, and may
-- go through the write-back model of cache_model.hh. `maybe_take_interrupt` runs between two
-- instructions.
--
-- The files, and what they model:
--   Cpu              `state_t`, its TLB entries and the slots of the micro-TLB, and the way a step ends
--   Exception        set_exc_pc, exc_vector, raise_common and the raisers (interpret.cc)
--   Tlb/Fault        cp0_write_mask, tlb_set_fault_state, raise_tlb
--   Tlb/Entry        the match of an entry and the page it maps, the loop of va_translate_inner
--   Tlb/Translate    va_translate_inner: segments, micro-TLB, lookup
--   Tlb/Ops          TLBR, TLBWI, TLBWR, TLBP, utlb_flush, tlb_probe_ro
--   Cp0              ERET, DI, EI, WAIT, MFC0, MTC0, DMFC0, DMTC0, console_watch, their dispatch
--   Interrupt        maybe_take_interrupt
--   Alu/HiLo, Alu/Special   opcode 0, without MOVCI and the jumps; Alu/Immediate the immediates
--   Dispatch/Gates, Dispatch/Step   execMips: the fetch, the gates, the decoder
--   Dispatch/Float   execCoproc1, MOVCI, LWC1, SWC1, LDC1, SDC1 and the conditional moves
--   Dispatch/CacheOp the CACHE instruction
--   Branch           branch, run_delay_slot, _bgez_bltz, JR, JALR, J, JAL
--   Fcr              the floating-point control registers, MTC1, MFC1, DMTC1, DMFC1
--   Memory/Sparse    `get` and `set` of sparse_mem, bswap (helper.hh)
--   Memory/Access    the aligned loads and stores, LL, SC, LLD, SCD
--   Memory/Merge, Memory/Unaligned   LWL, LWR, SWL, SWR and their 64-bit kin
--   Cache            cache_model (cache_model.hh)
--   Mc/Registers, Mc/Dma, Mc/Access   the memory controller and its DMA (sgi_mc.cc)
--   Hpc/Lines, Hpc/Timer   the interrupt controller and the timer (sgi_hpc.cc)
--   Hpc/ScsiDma, Hpc/Channel   the SCSI DMA and the registers of its channels (sgi_hpc.cc)
--   Seeq             the Ethernet controller (sgi_seeq.cc)
--   Scsi/Chip, Scsi/Command   the SCSI controller and its disk (sgi_scsi.cc)
--   Newport/Rex3, Newport/Registers, Newport/Bus   the graphics board: the registers of its raster
--                    engine and the accesses to them (sgi_newport.cc)
--   Newport/Vc2, Newport/Dcb   its video timing, and the chips behind its display control bus
--   Newport/Rb2, Newport/Clip, Newport/Colour, Newport/Depth   its framebuffer, and the place and
--                    the colour of a pixel
--   Newport/Lane, Newport/Shade, Newport/Span, Newport/Row   the lanes and rows of its span kernel
--   Serial           the serial controller (sgi_scc.cc)
--   Ps2/Controller, Ps2/Keys, Ps2/Mouse, Ps2/Script   the keyboard and mouse (sgi_ps2.cc)
-- The modules below these hold the proofs. Prelude holds machine words, tests and the laws of `&`
-- and `|`; Examples runs the definitions on concrete machines.
--
-- Numbers. A register is its bit pattern, a natural number, with the wrap-around of its width
-- written out; a signed comparison is one of patterns. The bit-field operations are sums of
-- products of powers of two. An array indexed by a register number is a function.
--
-- Loops. Each is a recursion on the number of rounds that are left: 48 entries, the bytes of an
-- access, the 32 bytes of a line, 7 condition codes, the lines and zooms of a DMA, the lanes of a
-- row, the 4096 entries of the video timing that the code itself allows. On fuel run the
-- calls of execMips in one another (Dispatch.Step.nest), where the bound stands for the stack of
-- the host; the bytes of a DMA line, with their number as fuel, of which a round takes at least
-- one; the packets of a mouse motion, with one more than its length as fuel; and the pump of the
-- SCSI DMA, for which three rounds for each descriptor of a chain are enough, to the device.
--
-- Parameters. The devices behind the window at 0x1f000000 are a record of a load and a store
-- (Memory.Sparse.Devices); the lines they raise are an argument of maybe_take_interrupt. A branch
-- takes the execution of its delay slot as a function, for which Dispatch.Step puts execMips. The
-- arithmetic of coprocessor 1 and COP1X are arguments of the dispatch. The devices of the board
-- are modelled each for itself: the bytes on the standard input are an argument of the serial
-- controller, and the graphics, with the memory, are the world of a DMA of the memory controller.
-- The blending of a pixel is an argument of its output. The SCSI controller is a record of its
-- operations for the DMA, which Scsi/Dma fills; the image of the disk is a read and a write of a
-- block, and the tap of the Ethernet controller a list of frames.
--
-- Not modelled: the arithmetic of coprocessor 1, which calls softfloat; of the
-- peripheral controller the Ethernet DMA, the clock and the rest of the register decode; the delta
-- file of the SCSI controller; of the graphics the commands that draw spans, blocks, lines and
-- copies from the lanes and pixels, the blending and the rendering of the picture; the debugger,
-- the loader, the checkpoints, and all that only
-- prints, counts or is switched on by an environment variable. load_script reads a file, and its
-- lines are commands here. The stored bytes of the cache model are those of get_raw_ptr with the
-- alias of the lowest 512 KB off.
mod Examples
mod Prelude
pub mod Cpu
pub mod Exception
pub mod Tlb
pub mod Cp0
pub mod Interrupt
pub mod Seeq
pub mod Scsi
pub mod Serial
pub mod Hpc
pub mod Mc
pub mod Ps2
pub mod Alu
pub mod Memory
pub mod Cache
pub mod Fcr
pub mod Branch
pub mod Dispatch
pub mod Newport
