-- ===== src/Tests.antt =====
-- Each theorem with conditions at a concrete input that meets them.
pub mod Limiter
pub mod Cloud
pub mod Commands
pub mod Devices
pub mod Frames
pub mod Gate
pub mod Links
pub mod Pushes
pub mod Segments
