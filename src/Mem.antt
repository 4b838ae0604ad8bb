-- ===== src/Mem.antt =====
-- totw_p5/mymem.c and mymem.h: the allocator over a pool of bytes, one child for each group of
-- functions, and children for what is proved of them.
pub mod State
pub mod Malloc
pub mod Free
pub mod Status
pub mod Layout
pub mod Choice
pub mod Valid
pub mod Carve
pub mod Granted
pub mod Keep
pub mod Live
pub mod Figures
pub mod Merge
pub mod Freed
pub mod Regions
pub mod Dispose
pub mod RoundTrip
pub mod Rover
pub mod NextFit
pub mod Ready
pub mod Overrun
pub mod Trace
pub mod IsAlloc
mod Tests
