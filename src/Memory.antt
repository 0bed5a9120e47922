-- ===== src/Memory.antt =====
-- kernel/memory.c and memory.h: physical pools, page tables, and the arenas of small blocks.
mod Defs
mod Arena
mod Virtual
pub mod Pages
pub mod Malloc
pub mod Palloc
pub mod Mapping
pub mod Reserve
pub mod Layout
pub mod Blocks
mod Tests
unfoldable pub use Defs.*
unfoldable pub use Arena.*
unfoldable pub use Virtual.*
