-- ===== src/Protocol/Acks.antt =====
-- void_protocol.go: the acknowledgements of the two tiers.
pub mod Layout
use void_protocol_oss.Base.{ℕ, [], ◌∷◌, if◌then◌else◌}
use void_protocol_oss.Base.Bytes.{Bytes, bytes_eq}
use void_protocol_oss.Base.Ints.{ℤ}
use void_protocol_oss.Protocol.Kaitai.{Kaitai, Parser, pure, ◌>>=◌, ◌>>◌}
use void_protocol_oss.Protocol.Header.{valid}
use void_protocol_oss.Protocol.Common.{
  AssetId, SettlementStatus, SysState, Ed25519Signature, X25519PublicKey, RelayOps, Vector3d,
  Vector3f, read_ed25519_signature, read_x25519_public_key, read_relay_ops, read_vector3d,
  read_vector3f,
}

-- The acknowledgement of the CCSDS tier, 114 bytes.
pub record PacketAckBodyCcsds : Type 0 where
  pub magic : Bytes
  pub pad_a : Bytes
  pub target_tx_id : ℕ
  pub status : SettlementStatus
  pub pad_b : Bytes
  pub relay_ops : RelayOps
  pub enc_tunnel : Bytes
  pub pad_c : Bytes
  pub crc32 : ℕ

-- The acknowledgement of the SNLP tier, 122 bytes.
pub record PacketAckBodySnlp : Type 0 where
  pub magic : Bytes
  pub pad_a : Bytes
  pub target_tx_id : ℕ
  pub status : SettlementStatus
  pub pad_b : Bytes
  pub relay_ops : RelayOps
  pub enc_tunnel : Bytes
  pub pad_c : Bytes
  pub crc32 : ℕ

module _ (k : Kaitai) where
  unfoldable pub read_packet_ack_body_ccsds : Parser k.Stream PacketAckBodyCcsds
  read_packet_ack_body_ccsds = do
    magic ← k.read_bytes 1
    valid (bytes_eq magic (172 ∷ []))
    pad_a ← k.read_bytes 1
    target_tx_id ← k.read_u4le
    status ← k.read_u1
    pad_b ← k.read_bytes 1
    relay_ops ← read_relay_ops k
    enc_tunnel ← k.read_bytes 88
    pad_c ← k.read_bytes 2
    crc32 ← k.read_u4le
    pure (record {
      magic = magic;
      pad_a = pad_a;
      target_tx_id = target_tx_id;
      status = status;
      pad_b = pad_b;
      relay_ops = relay_ops;
      enc_tunnel = enc_tunnel;
      pad_c = pad_c;
      crc32 = crc32;
    })

  unfoldable pub read_packet_ack_body_snlp : Parser k.Stream PacketAckBodySnlp
  read_packet_ack_body_snlp = do
    magic ← k.read_bytes 1
    valid (bytes_eq magic (172 ∷ []))
    pad_a ← k.read_bytes 1
    target_tx_id ← k.read_u4le
    status ← k.read_u1
    pad_b ← k.read_bytes 1
    relay_ops ← read_relay_ops k
    enc_tunnel ← k.read_bytes 96
    pad_c ← k.read_bytes 2
    crc32 ← k.read_u4le
    pure (record {
      magic = magic;
      pad_a = pad_a;
      target_tx_id = target_tx_id;
      status = status;
      pad_b = pad_b;
      relay_ops = relay_ops;
      enc_tunnel = enc_tunnel;
      pad_c = pad_c;
      crc32 = crc32;
    })
