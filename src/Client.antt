-- ===== src/Client.antt =====
-- The client side of mmkv/client.
pub mod Value
pub mod Queue
