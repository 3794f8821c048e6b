-- ===== src/Scsi.antt =====
-- The SCSI controller of the board, `sgi_scsi` (sgi_scsi.hh, sgi_scsi.cc).
pub mod Chip
pub mod Command
pub mod Blocks
pub mod Transfer
pub mod RoundTrip
pub mod Dma
