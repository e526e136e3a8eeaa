-- ===== src/Adapter/KbIds.antt =====
-- The keys and the buttons of a mouse among the enumerators of main/adapter/adapter.h.
mod Joystick
mod Keyboard
pub use Joystick.*
pub use Keyboard.*
