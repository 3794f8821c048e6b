-- ===== src/Ps2.antt =====
-- The keyboard and mouse controller, `sgi_ps2` (sgi_ps2.hh, sgi_ps2.cc).
pub mod Controller
pub mod Keys
pub mod Mouse
pub mod Script
pub mod Settled
pub mod Packets
