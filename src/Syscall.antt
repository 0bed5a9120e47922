-- ===== src/Syscall.antt =====
-- System calls: lib/user/syscall.c, userprog/syscall-init.c and the entry in kernel/kernel.S.
mod Defs
pub mod Calls
pub mod Tests
unfoldable pub use Defs.*
