-- ===== src/Protocol.antt =====
-- mmkv/protocol: the MMBP messages, their components and the codec that frames them.
pub mod Parser
pub mod Types
pub mod Component
pub mod HasBits
pub mod Request
pub mod Response
pub mod Codec
