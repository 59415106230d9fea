-- ===== src/Provider.antt =====
-- The client side of the bridge: the services that it provides (pkg/provider).
pub mod RemotePath
pub mod NetworkPolicy
pub mod NetworkHandler
pub mod Service
pub mod FileService
pub mod StreamDir
