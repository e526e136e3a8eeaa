-- ===== src/Adapter/HidGeneric.antt =====
-- The generic HID adapter, main/adapter/wireless/hid_generic.c.
pub mod Types
pub mod Fields
pub mod Kb
pub mod Mouse
pub mod PadUsages
pub mod PadButtons
pub mod Pad
pub mod Generic
pub mod Rumble
pub mod RumbleSize
pub mod FieldBits
pub mod Signs
pub mod Presses
pub mod KeySlots
pub mod Placed
pub mod Calibrated
pub mod Once
mod RumbleTests
mod Tests
