-- ===== src/Mc.antt =====
-- The memory controller of the board, `sgi_mc` (sgi_mc.hh, sgi_mc.cc). The logs are left out.
pub mod Registers
pub mod Dma
pub mod Access
pub mod RoundTrip
pub mod Eeprom
pub mod Transfer
