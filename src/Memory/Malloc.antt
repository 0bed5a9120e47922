-- ===== src/Memory/Malloc.antt =====
-- `sys_malloc` and `sys_free` of kernel/memory.c.
mod Defs
pub mod Arenas
pub mod Descs
pub mod Counts
pub mod Sound
pub mod Listed
pub mod Homes
pub mod Take
pub mod Open
pub mod Apart
pub mod Fresh
pub mod Release
pub mod Drained
pub mod Close
pub mod Free
pub mod Runs
pub mod Cycle
pub mod Calls
mod Tests
unfoldable pub use Defs.*
