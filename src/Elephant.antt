-- ===== src/Elephant.antt =====
-- The os-elephant kernel: lib, kernel, device and thread.
pub mod Str
pub mod Bitmap
pub mod Memory
pub mod Interrupt
pub mod Timer
pub mod Thread
pub mod Start
