-- ===== src/SelectiveRepeatCc.antt =====
-- workers/selectiveRepeatCC/: selective repeat with congestion control.
pub mod Congestion
pub mod Client
pub mod Server
