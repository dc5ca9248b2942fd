-- ===== src/Snapshot.antt =====
-- lib/snapshot: the file system of an image, in memory, and the layers that change it.
pub mod Header
pub mod Tree
pub mod Overlay
pub mod Layer
pub mod MemFs
pub mod CopyOp
pub mod Walk
pub mod Links
pub mod Merge
pub mod Compare
