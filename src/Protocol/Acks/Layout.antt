-- ===== src/Protocol/Acks/Layout.antt =====
-- What the readers of the two acknowledgements make of a body.
use void_protocol_oss.Base.{◌≡◌, none, some, [], ◌∷◌, length, slice, if◌then◌else◌}
use void_protocol_oss.Base.Bytes.{Bytes, bytes_eq}
use void_protocol_oss.Protocol.Kaitai.{Kaitai, only}
use void_protocol_oss.Protocol.Reads.{bind-Reads, map-Reads, read_whole}
use void_protocol_oss.Protocol.Fields.{
  le_at, relay_ops_at, valid-Reads, bytes-Reads, u1-Reads, u4le-Reads, relay_ops-Reads,
}
use void_protocol_oss.Protocol.Acks.{
  PacketAckBodyCcsds, PacketAckBodySnlp, read_packet_ack_body_ccsds, read_packet_ack_body_snlp,
}

abbrev pub packet_ack_body_ccsds_fields : Bytes → PacketAckBodyCcsds
packet_ack_body_ccsds_fields bs = record {
  magic = slice 0 1 bs;
  pad_a = slice 1 1 bs;
  target_tx_id = le_at 4 2 bs;
  status = le_at 1 6 bs;
  pad_b = slice 7 1 bs;
  relay_ops = relay_ops_at 8 bs;
  enc_tunnel = slice 20 88 bs;
  pad_c = slice 108 2 bs;
  crc32 = le_at 4 110 bs;
}

-- A body of 114 bytes is read field by field, each at its offset, if its first byte is the magic.
pub read_packet_ack_body_ccsds-fields :
    (k : Kaitai) (bs : Bytes) (s : k.Stream)
    → k.view s ≡ record { content = bs; offset = 0 }
    → length bs ≡ 114
    → only (read_packet_ack_body_ccsds k s) ≡ (
        if bytes_eq (slice 0 1 bs) (172 ∷ []) then some (packet_ack_body_ccsds_fields bs) else none)
unfolding read_packet_ack_body_ccsds
read_packet_ack_body_ccsds-fields k bs s v l =
    read_whole bs s
      (bind-Reads (bytes-Reads k 1) λ magic. valid-Reads (bytes_eq magic (172 ∷ [])) (
        bind-Reads (bytes-Reads k 1) λ pad_a. bind-Reads (u4le-Reads k) λ target_tx_id.
          bind-Reads (u1-Reads k) λ status. bind-Reads (bytes-Reads k 1) λ pad_b.
            bind-Reads (relay_ops-Reads k) λ relay_ops.
              bind-Reads (bytes-Reads k 88)
                λ enc_tunnel. bind-Reads (bytes-Reads k 2) λ pad_c. map-Reads _ (u4le-Reads k)))
      v l

abbrev pub packet_ack_body_snlp_fields : Bytes → PacketAckBodySnlp
packet_ack_body_snlp_fields bs = record {
  magic = slice 0 1 bs;
  pad_a = slice 1 1 bs;
  target_tx_id = le_at 4 2 bs;
  status = le_at 1 6 bs;
  pad_b = slice 7 1 bs;
  relay_ops = relay_ops_at 8 bs;
  enc_tunnel = slice 20 96 bs;
  pad_c = slice 116 2 bs;
  crc32 = le_at 4 118 bs;
}

-- A body of 122 bytes is read field by field, each at its offset, if its first byte is the magic.
pub read_packet_ack_body_snlp-fields :
    (k : Kaitai) (bs : Bytes) (s : k.Stream)
    → k.view s ≡ record { content = bs; offset = 0 }
    → length bs ≡ 122
    → only (read_packet_ack_body_snlp k s)
      ≡ (if bytes_eq (slice 0 1 bs) (172 ∷ []) then some (packet_ack_body_snlp_fields bs) else none)
unfolding read_packet_ack_body_snlp
read_packet_ack_body_snlp-fields k bs s v l =
    read_whole bs s
      (bind-Reads (bytes-Reads k 1) λ magic. valid-Reads (bytes_eq magic (172 ∷ [])) (
        bind-Reads (bytes-Reads k 1) λ pad_a. bind-Reads (u4le-Reads k) λ target_tx_id.
          bind-Reads (u1-Reads k) λ status. bind-Reads (bytes-Reads k 1) λ pad_b.
            bind-Reads (relay_ops-Reads k) λ relay_ops.
              bind-Reads (bytes-Reads k 96)
                λ enc_tunnel. bind-Reads (bytes-Reads k 2) λ pad_c. map-Reads _ (u4le-Reads k)))
      v l
