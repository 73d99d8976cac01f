-- ===== src/GoBackN.antt =====
-- workers/goBackN/: the go-back-N workers.
pub mod Client
pub mod Server
