-- ===== src/Adapter/HidParser.antt =====
-- The parser of HID report descriptors, main/adapter/hid_parser.c.
pub mod Usage
pub mod Types
pub mod Report
pub mod State
pub mod Main
pub mod Items
pub mod Parse
pub mod Disjoint
pub mod Offsets
pub mod Progress
pub mod Fragments
pub mod Overruns
pub mod Classify
mod Tests
