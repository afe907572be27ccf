-- ===== src/Ops.antt =====
-- Operations of an administrator that the writer carries out (src/stigmergy/ops).
pub mod Erasure
pub mod Workspace
