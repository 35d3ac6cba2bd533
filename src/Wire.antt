-- ===== src/Wire.antt =====
-- gateway/internal/void_protocol: the wire format's constants and the CRC gate.
pub mod Crc
pub mod Signature
pub mod Samples
use void_protocol_oss.Base.{ℕ}

abbrev pub ccsds_header_len : ℕ
ccsds_header_len = 6

abbrev pub snlp_header_len : ℕ
snlp_header_len = 14

abbrev pub packet_b_body_len : ℕ
packet_b_body_len = 178

abbrev pub packet_b_sig_scope_body : ℕ
packet_b_sig_scope_body = 106
