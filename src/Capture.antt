-- ===== src/Capture.antt =====
-- The capture queue (src/stigmergy/capture).
pub mod Json
pub mod Schema
pub mod Queue
pub mod Uploads
