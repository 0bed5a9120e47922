-- ===== src/Thread.antt =====
-- thread/thread.c and thread.h: tasks, the ready queue and the scheduler; the timer's handler of
-- device/timer.c; `process_activate` of userprog/process.c.
mod Defs
pub mod Valid
pub mod Schedule
pub mod Block
pub mod Timer
pub mod Sleep
pub mod Tests
unfoldable pub use Defs.*
