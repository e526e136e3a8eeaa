-- ===== src/Queue.antt =====
-- The queue between the two cores, components/queue_bss/queue_bss.c.
pub mod Ring
pub mod Bss
pub mod Slots
pub mod Fifo
pub mod Steps
pub mod Puts
pub mod Moves
pub mod Start
pub mod Sessions
pub mod ListRing
mod Tests
