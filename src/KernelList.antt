-- ===== src/KernelList.antt =====
-- lib/kernel/list.c and list.h: the doubly linked list that every queue of the kernel is.
mod Defs
pub mod Chain
pub mod Insert
pub mod Remove
pub mod Walk
mod Tests
unfoldable pub use Defs.*
