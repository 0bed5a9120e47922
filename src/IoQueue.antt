-- ===== src/IoQueue.antt =====
-- device/ioqueue.c and ioqueue.h: the ring of 64 bytes between the keyboard and its reader.
mod Defs
pub mod Slots
pub mod Ring
pub mod Waiting
pub mod Fifo
pub mod Tests
unfoldable pub use Defs.*
