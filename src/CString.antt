-- ===== src/CString.antt =====
-- lib/string.c and lib/string.h: blocks of memory and NUL-terminated strings.
mod Defs
pub mod Block
pub mod Strings
pub mod Compare
pub mod Search
mod Tests
unfoldable pub use Defs.*
