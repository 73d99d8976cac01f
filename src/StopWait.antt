-- ===== src/StopWait.antt =====
-- workers/stopWait/: one packet at a time.
pub mod Client
pub mod Server
