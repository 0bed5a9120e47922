-- ===== src/Memory/Pages.antt =====
-- Pages of kernel/memory.c: `malloc_page` and `mfree_page`, and the calls that take a pool's lock around them.
mod Defs
pub mod Count
pub mod Taking
pub mod Giving
pub mod Heap
pub mod One
pub mod Kernel
pub mod Tests
unfoldable pub use Defs.*
