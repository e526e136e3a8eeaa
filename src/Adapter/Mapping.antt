-- ===== src/Adapter/Mapping.antt =====
-- From the generic input of a controller to the outputs, main/adapter/adapter.c.
pub mod Types
pub mod Map
pub mod Cases
pub mod Outputs
pub mod Masks
mod Tests
