-- ===== src/Adapter/Buttons.antt =====
-- Buttons and axes of a generic pad, main/adapter/adapter.c.
pub mod Tables
pub mod RoundTrips
mod Tests
