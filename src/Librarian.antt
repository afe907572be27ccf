-- ===== src/Librarian.antt =====
-- The writer process (src/stigmergy/librarian).
pub mod Worker
pub mod Schedule
