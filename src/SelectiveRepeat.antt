-- ===== src/SelectiveRepeat.antt =====
-- workers/selectiveRepeat/: a window of packets that are acknowledged one by one.
pub mod Client
pub mod Server
