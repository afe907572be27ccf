-- ===== src/Capture/Queue.antt =====
-- src/stigmergy/capture/queue.py: the durable queue, and what is proved of it.
pub mod Base
pub mod Submit
pub mod Claim
pub mod Settle
pub mod Invariant
pub mod Steps
pub mod Row
pub mod Fencing
pub mod Holder
pub mod Turns
pub mod History
pub mod Submitted
pub mod Idempotent
pub mod Resent
pub mod Expiry
