-- ===== src/Tests.antt =====
-- Tests of the definitions and instances of the theorems at concrete inputs.
mod Codecs
mod Nets
mod NetworkTests
mod SessionTests
mod WriteBackTests
mod FilesTests
mod NodesTests
mod FileServiceTests
mod ListingTests
mod HandshakeTests
mod ClientTests
mod ServiceTests
mod ProtocolTests
mod ProxyTests
mod AgentTests
mod ProviderTests
