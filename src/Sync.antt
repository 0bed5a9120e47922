-- ===== src/Sync.antt =====
-- thread/sync.c and sync.h: binary semaphores, and locks that their holder may take again.
mod Defs
pub mod Semaphores
pub mod Locks
mod Tests
unfoldable pub use Defs.*
