-- ===== src/Index.antt =====
-- The search index (src/stigmergy/index).
pub mod Fragments
pub mod Health
