-- ===== src/Protocol/Payments.antt =====
-- void_protocol.go: the bodies of the commerce loop, invoice, payment and receipt.
pub mod Layout
use void_protocol_oss.Base.{ℕ, [], ◌∷◌, if◌then◌else◌}
use void_protocol_oss.Base.Bytes.{Bytes, bytes_eq}
use void_protocol_oss.Base.Ints.{ℤ}
use void_protocol_oss.Protocol.Kaitai.{Kaitai, Parser, pure, ◌>>=◌, ◌>>◌}
use void_protocol_oss.Protocol.Header.{valid}
use void_protocol_oss.Protocol.Common.{
  AssetId, SettlementStatus, SysState, Ed25519Signature, X25519PublicKey, RelayOps, Vector3d,
  Vector3f, read_ed25519_signature, read_x25519_public_key, read_relay_ops, read_vector3d,
  read_vector3f,
}

-- The invoice, 66 bytes.
pub record PacketABody : Type 0 where
  pub pad_head : Bytes
  pub epoch_ts : ℕ
  pub pos_vec : Vector3d
  pub vel_vec : Vector3f
  pub sat_id : ℕ
  pub amount : ℕ
  pub asset_id : AssetId
  pub pre_crc : Bytes
  pub crc32 : ℕ

-- The payment, 178 bytes.
pub record PacketBBody : Type 0 where
  pub pad_head : Bytes
  pub epoch_ts : ℕ
  pub pos_vec : Vector3d
  pub enc_payload : Bytes
  pub pre_sat : Bytes
  pub sat_id : ℕ
  pub pre_sig : Bytes
  pub signature : Ed25519Signature
  pub global_crc : ℕ
  pub tail_pad : Bytes

-- The receipt, 98 bytes.
pub record PacketCBody : Type 0 where
  pub pad_head : Bytes
  pub exec_time : ℕ
  pub enc_tx_id : ℕ
  pub enc_status : ℕ
  pub pad_sig : Bytes
  pub signature : Ed25519Signature
  pub crc32 : ℕ
  pub tail_pad : Bytes

module _ (k : Kaitai) where
  unfoldable pub read_packet_a_body : Parser k.Stream PacketABody
  read_packet_a_body = do
    pad_head ← k.read_bytes 2
    epoch_ts ← k.read_u8le
    pos_vec ← read_vector3d k
    vel_vec ← read_vector3f k
    sat_id ← k.read_u4le
    amount ← k.read_u8le
    asset_id ← k.read_u2le
    pre_crc ← k.read_bytes 2
    crc32 ← k.read_u4le
    pure (record {
      pad_head = pad_head;
      epoch_ts = epoch_ts;
      pos_vec = pos_vec;
      vel_vec = vel_vec;
      sat_id = sat_id;
      amount = amount;
      asset_id = asset_id;
      pre_crc = pre_crc;
      crc32 = crc32;
    })

  unfoldable pub read_packet_b_body : Parser k.Stream PacketBBody
  read_packet_b_body = do
    pad_head ← k.read_bytes 2
    epoch_ts ← k.read_u8le
    pos_vec ← read_vector3d k
    enc_payload ← k.read_bytes 62
    pre_sat ← k.read_bytes 2
    sat_id ← k.read_u4le
    pre_sig ← k.read_bytes 4
    signature ← read_ed25519_signature k
    global_crc ← k.read_u4le
    tail_pad ← k.read_bytes 4
    pure (record {
      pad_head = pad_head;
      epoch_ts = epoch_ts;
      pos_vec = pos_vec;
      enc_payload = enc_payload;
      pre_sat = pre_sat;
      sat_id = sat_id;
      pre_sig = pre_sig;
      signature = signature;
      global_crc = global_crc;
      tail_pad = tail_pad;
    })

  unfoldable pub read_packet_c_body : Parser k.Stream PacketCBody
  read_packet_c_body = do
    pad_head ← k.read_bytes 2
    exec_time ← k.read_u8le
    enc_tx_id ← k.read_u8le
    enc_status ← k.read_u1
    pad_sig ← k.read_bytes 7
    signature ← read_ed25519_signature k
    crc32 ← k.read_u4le
    tail_pad ← k.read_bytes 4
    pure (record {
      pad_head = pad_head;
      exec_time = exec_time;
      enc_tx_id = enc_tx_id;
      enc_status = enc_status;
      pad_sig = pad_sig;
      signature = signature;
      crc32 = crc32;
      tail_pad = tail_pad;
    })
