-- ===== src/Adapter/Wired.antt =====
-- What the wired drivers share, main/adapter/wired/wired.c, and the outputs of one of the systems.
pub mod Types
pub mod Turbo
pub mod Phases
pub mod N64
mod Tests
