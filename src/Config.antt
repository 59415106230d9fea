-- ===== src/Config.antt =====
-- The configurations of the two programs, and the addresses in them.
pub mod Address
pub mod Client
pub mod Server
