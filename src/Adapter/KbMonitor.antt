-- ===== src/Adapter/KbMonitor.antt =====
-- The keyboard monitor, main/adapter/kb_monitor.c.
pub mod Monitor
pub mod Keys
pub mod Repeat
pub mod Codes
mod Tests
