-- ===== src/Tests/Expiry.antt =====
-- A lease of src/stigmergy/capture/queue.py that ran out.
