-- ===== src/Interrupt.antt =====
-- The interrupt flag and the table of handlers of kernel/interrupt.c and interrupt.h.
mod Status
pub mod Handlers
pub mod Frequency
pub mod Dispatch
mod Tests
unfoldable pub use Status.*
