-- ===== src/Throttle.antt =====
-- capture/throttle.go: the rate limit on connections.
pub mod Conn
pub mod Writing
