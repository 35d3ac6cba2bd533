-- ===== src/Protocol/Header.antt =====
-- ccsds_primary_header.go and snlp_header.go: the two routing headers.
use Prim.Native.Nat.{bit_and}
use void_protocol_oss.Base.{ℕ, ◌+◌, ◌/◌, ◌%◌, ◌^◌, Bool, [], ◌∷◌, ◌==◌, if◌then◌else◌}
use void_protocol_oss.Base.Bytes.{Bytes, bytes_eq}
use void_protocol_oss.Protocol.Kaitai.{Kaitai, Parser, pure, fail, ◌>>=◌, ◌>>◌}

pub record CcsdsPrimaryHeader : Type 0 where
  pub version_type_flag_apid : ℕ
  pub seq_flags_count : ℕ
  pub packet_data_length : ℕ

-- A shift right by `n` is a division by `2 ^ n`; the uint16 sums wrap.
module _ (h : CcsdsPrimaryHeader) where
  unfoldable pub apid : ℕ
  apid = bit_and h.version_type_flag_apid 2047

  unfoldable pub data_field_length : ℕ
  data_field_length = (h.packet_data_length + 1) % 2 ^ 16

  unfoldable pub packet_type : ℕ
  packet_type = bit_and (h.version_type_flag_apid / 2 ^ 12) 1

  unfoldable pub sec_header_flag : ℕ
  sec_header_flag = bit_and (h.version_type_flag_apid / 2 ^ 11) 1

  unfoldable pub seq_count : ℕ
  seq_count = bit_and h.seq_flags_count 16383

  unfoldable pub seq_flags : ℕ
  seq_flags = bit_and (h.seq_flags_count / 2 ^ 14) 3

  unfoldable pub total_packet_length : ℕ
  total_packet_length = (h.packet_data_length + 7) % 2 ^ 16

  unfoldable pub version : ℕ
  version = bit_and (h.version_type_flag_apid / 2 ^ 13) 7

pub record SnlpHeader : Type 0 where
  pub sync_word : Bytes
  pub ccsds : CcsdsPrimaryHeader
  pub align_pad : ℕ

abbrev pub sync_bytes : Bytes
sync_bytes = 29 ∷ 1 ∷ 165 ∷ 165 ∷ []

-- The validation of a field: its error ends the parse.
abbrev pub valid : {S : Type 0} → Bool → Parser S (Unit {0})
valid b = if b then pure tt else fail

module _ (k : Kaitai) where
  unfoldable pub read_ccsds_primary_header : Parser k.Stream CcsdsPrimaryHeader
  read_ccsds_primary_header = do
    version_type_flag_apid ← k.read_u2be
    seq_flags_count ← k.read_u2be
    packet_data_length ← k.read_u2be
    pure (record {
      version_type_flag_apid = version_type_flag_apid;
      seq_flags_count = seq_flags_count;
      packet_data_length = packet_data_length;
    })

  unfoldable pub read_snlp_header : Parser k.Stream SnlpHeader
  read_snlp_header = do
    sync_word ← k.read_bytes 4
    valid (bytes_eq sync_word sync_bytes)
    ccsds ← read_ccsds_primary_header
    align_pad ← k.read_u4be
    valid (align_pad == 0)
    pure (record { sync_word = sync_word; ccsds = ccsds; align_pad = align_pad })
