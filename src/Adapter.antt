-- ===== src/Adapter.antt =====
-- The adapter (main/adapter): what stands between the wireless controllers and the wired port.
pub mod Ids
pub mod KbIds
pub mod Macro
pub mod Config
pub mod HidParser
pub mod Quirks
pub mod Buttons
pub mod Mapping
pub mod MemoryCard
pub mod Wired
pub mod KbMonitor
pub mod HidGeneric
