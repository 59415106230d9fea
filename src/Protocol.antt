-- ===== src/Protocol.antt =====
-- pkg/protocol: the messages between the two ends of the bridge, and their framing.
pub mod Types
pub mod Texts
pub mod Frame
pub mod Payload
pub mod Message
pub mod Directory
pub mod Validate
