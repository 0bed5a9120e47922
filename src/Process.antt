-- ===== src/Process.antt =====
-- Threads and processes come into being: thread/thread.c and userprog/process.c.
mod Defs
pub mod Directory
pub mod Threads
mod Tests
unfoldable pub use Defs.*
