-- ===== src/Descriptors.antt =====
-- The descriptors of kernel/interrupt.c and userprog/tss.c, with the selectors of kernel/global.h.
mod Defs
pub mod Fields
mod Tests
unfoldable pub use Defs.*
