-- ===== src/Daemon.antt =====
-- internal/daemon/server.go: what a client on the socket can reach. The words that system.info answers
-- stand in `Daemon/Info`.
pub mod Info
pub mod Serve
