-- ===== src/Contention.antt =====
-- Threads that contend for one lock of thread/sync.c, under the timer of device/timer.c.
pub mod System
pub mod Invariant
pub mod Enter
pub mod Hold
pub mod Leave
pub mod Preempt
pub mod Exclusion
pub mod Moves
pub mod Tests
unfoldable pub use System.*
