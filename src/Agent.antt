-- ===== src/Agent.antt =====
-- The server side of the bridge (pkg/agent): the file system that is mounted there, and the resolver.
pub mod WriteBlock
pub mod Attributes
pub mod Symlink
pub mod Remote
pub mod Nodes
pub mod Files
pub mod MetadataCache
pub mod ReadBlockCache
pub mod Dns
pub mod Network
pub mod Changes
pub mod WriteBack
