-- ===== src/Receipt/Builder.antt =====
-- gateway/internal/core/receipt/builder.go: the PacketC frame. The fields of `Inputs` are below
-- their Go types' bounds wherever a theorem needs it; Ed25519 and CRC-32 are the library's.
pub mod Layout
pub mod Readback
use Prim.Native.Nat.{bit_and, bit_or}
use void_protocol_oss.Base.{
  ℕ, ◌+◌, ◌-◌, ◌/◌, ◌%◌, ◌^◌, ◌≡◌, Option, none, some, [], ◌∷◌, ◌++◌, length, take, drop, replicate,
  All, ◌==◌, if◌then◌else◌,
}
use void_protocol_oss.Base.Bytes.{Bytes, IsByte}
use void_protocol_oss.Base.Words.{le_bytes}
use void_protocol_oss.Wire.{snlp_header_len}
use void_protocol_oss.Wire.Crc.{Crc32}
use void_protocol_oss.Wire.Signature.{Ed25519, seed_size, signature_size}

abbrev pub packet_c_frame_len : ℕ
packet_c_frame_len = 112

abbrev pub packet_c_body_start : ℕ
packet_c_body_start = snlp_header_len

abbrev pub packet_c_exec_time_off : ℕ
packet_c_exec_time_off = packet_c_body_start + 2

abbrev pub packet_c_enc_tx_id_off : ℕ
packet_c_enc_tx_id_off = packet_c_exec_time_off + 8

abbrev pub packet_c_enc_status_off : ℕ
packet_c_enc_status_off = packet_c_enc_tx_id_off + 8

abbrev pub packet_c_sig_scope_len : ℕ
packet_c_sig_scope_len = 26

abbrev pub packet_c_signature_off : ℕ
packet_c_signature_off = packet_c_body_start + packet_c_sig_scope_len

abbrev pub packet_c_crc_off : ℕ
packet_c_crc_off = packet_c_signature_off + signature_size

pub record Inputs : Type 0 where
  pub exec_time_ms : ℕ
  pub enc_tx_id : ℕ
  pub enc_status : ℕ
  pub apid : ℕ
  pub seq_count : ℕ
  pub seed_ed25519 : Bytes

-- The bytes `bs` written at `off`; every call below stays inside its frame.
abbrev pub put : ℕ → Bytes → Bytes → Bytes
put off bs frame = take off frame ++ (bs ++ drop (off + length bs) frame)

-- `byte(n >> 8)` and `byte(n)` of a uint16.
abbrev pub two_bytes : ℕ → Bytes
two_bytes n = (n / 256 % 256) ∷ (n % 256) ∷ []

-- `dst` is the front of the frame, so the frame itself is returned.
unfoldable pub write_snlp_header : ℕ → ℕ → ℕ → Bytes → Bytes
write_snlp_header apid seq_count body_len dst =
    let dst = put 0 (0x1D ∷ 0x01 ∷ 0xA5 ∷ 0xA5 ∷ []) dst in
    let dst = put 4 (two_bytes (bit_or 0x0800 (bit_and apid 0x07FF))) dst in
    let dst = put 6 (two_bytes (bit_or 0xC000 (bit_and seq_count 0x3FFF))) dst in
    put 8 (two_bytes ((body_len - 1) % 2 ^ 16)) dst

-- The header and the body up to the signature.
unfoldable pub unsigned_frame : Inputs → Bytes
unfolding write_snlp_header
unsigned_frame inputs =
    let frame =
      write_snlp_header inputs.apid inputs.seq_count (packet_c_frame_len - snlp_header_len)
        (replicate packet_c_frame_len 0) in
    let frame = put packet_c_exec_time_off (le_bytes 8 inputs.exec_time_ms) frame in
    let frame = put packet_c_enc_tx_id_off (le_bytes 8 inputs.enc_tx_id) frame in
    put packet_c_enc_status_off (inputs.enc_status ∷ []) frame

-- `copy` writes at most the 64 bytes of its destination.
unfoldable pub signed_frame : Ed25519 → Inputs → Bytes
signed_frame ed inputs =
    let frame = unsigned_frame inputs in
    let sig_scope = take packet_c_sig_scope_len (drop packet_c_body_start frame) in
    let sig = ed.sign inputs.seed_ed25519 sig_scope in
    put packet_c_signature_off (take signature_size sig) frame

-- None is the error that the seed has a wrong size.
unfoldable pub build : Ed25519 → Crc32 → Inputs → Option Bytes
build ed crc inputs =
    if length inputs.seed_ed25519 == seed_size
    then (let frame = signed_frame ed inputs in
        let check = crc.checksum_ieee (take packet_c_crc_off frame) in
        some (put packet_c_crc_off (le_bytes 4 check) frame))
    else none
