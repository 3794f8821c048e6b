-- ===== src/Newport.antt =====
-- The graphics board, `sgi_newport` (sgi_newport.hh, sgi_newport.cc).
mod Bit
pub mod Depth
pub mod Rex3
pub mod Rb2
pub mod Colour
pub mod Shade
pub mod Clip
pub mod Logic
pub mod Vc2
pub mod Dcb
pub mod Registers
pub mod Bus
pub mod Readback
pub mod Lane
pub mod Bounds
pub mod Span
pub mod Row
