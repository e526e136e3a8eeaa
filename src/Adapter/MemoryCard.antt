-- ===== src/Adapter/MemoryCard.antt =====
-- The memory card, main/adapter/memory_card.c.
pub mod Card
pub mod Dirty
pub mod Spread
pub mod Drain
pub mod Restore
mod Tests
