-- ===== src/Console.antt =====
-- device/console.c: output under a lock, on top of Sync.
mod Defs
pub mod Output
pub mod Terminal
pub mod Messages
mod Tests
unfoldable pub use Defs.*
