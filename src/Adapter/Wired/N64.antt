-- ===== src/Adapter/Wired/N64.antt =====
-- The outputs of an N64 (main/adapter/wired/n64.c).
pub mod Tables
pub mod Pad
pub mod Others
pub mod Dispatch
pub mod Buttons
pub mod Accessory
pub mod Releases
pub mod AxisBytes
pub mod KeyCodes
mod Tests
