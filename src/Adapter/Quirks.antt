-- ===== src/Adapter/Quirks.antt =====
-- The quirks of particular controllers, main/adapter/mapping_quirks.c.
pub mod Types
pub mod Moves
pub mod Devices
pub mod Apply
pub mod Remaps
pub mod Dispatch
mod Tests
