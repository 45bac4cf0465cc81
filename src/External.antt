-- ===== src/External.antt =====
-- What the library calls and does not contain: kvarint, kanon's buffers and xxHash. Each is a
-- record of operations with the documented laws that the code relies on.
pub mod Varint
pub mod ByteBuffer
pub mod Checksum
