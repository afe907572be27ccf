-- ===== src/Tests.antt =====
-- Witnesses: each theorem with hypotheses, applied to a concrete case.
mod Queue
mod Health
mod Knowledge
mod Identity
mod Changes
pub mod Roster
mod Kernel
mod Server
mod Ops
mod Expiry
mod Index
mod Workspace
mod Librarian
mod Uploads
mod Layers
mod Hygiene
