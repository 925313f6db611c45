-- ===== src/Protocol.antt =====
-- The IPC protocol between the VLC plugin and the worker: protocol/include/vw_protocol_types.h,
-- protocol/src/vw_protocol_codec.c and protocol/src/vw_protocol_validate.c.
pub mod Wire
pub mod Types
pub mod Header
pub mod Encode
pub mod Decode
pub mod WellFormed
pub mod Utf8
pub mod Language
pub mod Validate
pub mod Roundtrip
pub mod Saturating
mod Tests
