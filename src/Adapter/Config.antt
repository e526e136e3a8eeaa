-- ===== src/Adapter/Config.antt =====
-- The configuration, main/adapter/config.c.
pub mod Layout
pub mod Init
pub mod Load
pub mod Store
pub mod Bytes
pub mod Append
pub mod Upgrade
pub mod Defaults
pub mod Old
pub mod Versions
pub mod Chain
pub mod Reset
mod Tests
