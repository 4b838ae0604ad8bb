-- ===== src/Fs.antt =====
-- totw_p6/fs.c and fsutil.c: a file system on the virtual disk.
pub mod State
pub mod Mount
pub mod Files
pub mod Transfer
pub mod Truncate
pub mod Bytes
pub mod Open
pub mod Cut
pub mod Trim
pub mod Search
pub mod Content
pub mod Least
pub mod Patch
pub mod Round
pub mod WriteRound
pub mod Wrote
pub mod WriteLoop
pub mod Saved
pub mod Write
pub mod Back
pub mod Grown
pub mod Overlap
pub mod Append
pub mod Sound
pub mod Expand
pub mod Rounded
pub mod Grows
pub mod NewBlock
pub mod PastLoop
pub mod Past
pub mod Slots
pub mod Invariant
pub mod Create
pub mod Delete
pub mod Keeps
pub mod Stored
pub mod Leaves
pub mod Calls
pub mod Encode
pub mod Info
pub mod Persist
pub mod SavedSlot
pub mod Remount
pub mod Restart
pub mod Wiped
pub mod Fresh
pub mod Read
pub mod Memory
mod ReadTests
mod Tests
mod Fixture
mod CallTests
mod MountTests
