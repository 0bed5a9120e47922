-- ===== src/Ide.antt =====
-- The driver of the hard disks: device/ide.c.
mod Defs
pub mod Controller
pub mod Rounds
pub mod Transfers
pub mod Interrupts
mod Tests
unfoldable pub use Defs.*
