-- ===== src/Ops/Workspace.antt =====
-- src/stigmergy/ops/erase_workspace.py: the deletion of a whole workspace.
pub mod State
pub mod Tables
pub mod Run
pub mod Cuts
pub mod Chain
pub mod Order
pub mod Empties
pub mod Others
pub mod Running
pub mod Sound
