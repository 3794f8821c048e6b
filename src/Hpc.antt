-- ===== src/Hpc.antt =====
-- The peripheral controller of the board, `sgi_hpc` (sgi_hpc.hh, sgi_hpc.cc): the interrupt
-- controller, the timer, and the SCSI DMA.
pub mod Lines
pub mod Timer
pub mod ScsiDma
pub mod Pump
pub mod Sources
pub mod Latch
pub mod Channel
pub mod Arming
pub mod Chain
pub mod Fed
