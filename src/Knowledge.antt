-- ===== src/Knowledge.antt =====
-- What filing writes beside its plan (src/stigmergy/knowledge).
pub mod Aliases
