-- ===== src/Protocol/Roundtrip.antt =====
-- Decoding after encoding, for every message of the protocol
-- (protocol/src/vw_protocol_codec.c).
pub mod Shared
pub mod Plain
pub mod Fixed
pub mod Text
pub mod Caption
pub mod Messages
