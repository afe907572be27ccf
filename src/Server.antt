-- ===== src/Server.antt =====
-- Admission to the server, and who may enter it (src/stigmergy/server).
pub mod RateLimit
pub mod Throttle
pub mod Roster
pub mod Identity
