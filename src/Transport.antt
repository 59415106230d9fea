-- ===== src/Transport.antt =====
-- pkg/transport: the handshake by which a connection begins, at either end.
pub mod Accept
pub mod Dial
pub mod Handshake
