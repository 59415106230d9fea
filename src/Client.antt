-- ===== src/Client.antt =====
-- pkg/client: the program that dials the server and serves it.
pub mod Run
