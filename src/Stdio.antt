-- ===== src/Stdio.antt =====
-- lib/stdio.c: what `printf` prints.
mod Defs
mod Format
mod Printf
pub mod Itoa
pub mod Digits
pub mod Wrote
pub mod Pieces
pub mod Steps
pub mod Loop
pub mod Formats
pub mod Prints
mod Tests
unfoldable pub use Defs.*
unfoldable pub use Printf.*
unfoldable pub use Format.*
