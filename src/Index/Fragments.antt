-- ===== src/Index/Fragments.antt =====
-- src/stigmergy/index/fragments.py: how a stored page is cut into fragments.
pub mod Lines
pub mod Sections
pub mod Windows
pub mod Cut
pub mod Prefix
pub mod Tiling
pub mod Chain
pub mod Overlap
pub mod Advance
pub mod Partition
pub mod Reassemble
pub mod Bytes
pub mod Pieces
