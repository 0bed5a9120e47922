-- ===== src/Bitmap.antt =====
-- lib/kernel/bitmap.c and bitmap.h: a bitmap over an array of bytes, the free map of the page pools.
-- `bits` is the array that the pointer leads to; an access behind its end is `fault`.
mod Defs
pub mod Set
pub mod Scan
mod Tests
unfoldable pub use Defs.*
