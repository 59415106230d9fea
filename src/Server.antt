-- ===== src/Server.antt =====
-- pkg/server: the program that accepts the client's connection and serves its session.
pub mod Session
