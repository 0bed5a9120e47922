-- ===== src/Keyboard.antt =====
-- device/keyboard.c: the keyboard's interrupt handler.
mod Keymap
mod Defs
pub mod Characters
pub mod Handler
pub mod Typing
mod Tests
unfoldable pub use Keymap.*
unfoldable pub use Defs.*
