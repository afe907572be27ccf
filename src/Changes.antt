-- ===== src/Changes.antt =====
-- The ledger of landed changes (src/stigmergy/changes).
pub mod Patches
pub mod Ledger
