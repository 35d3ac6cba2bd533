-- ===== src/Protocol.antt =====
-- The packet parser: gateway/internal/void_protocol/protocol, generated from the .ksy files. Each
-- `Read` method is a parser over the stream of the Kaitai runtime, whose errors end the parse. The
-- fields that a getter caches its value in are left out, since what the getters read is set once.
pub mod Kaitai
pub mod Reads
pub mod Common
pub mod Header
pub mod Payments
pub mod Telemetry
pub mod Acks
pub mod Fields
pub mod Packet
pub mod Lengths
pub mod Samples
