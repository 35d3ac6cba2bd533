-- ===== src/Protocol/Telemetry.antt =====
-- void_protocol.go: heartbeat, handshake and delivery.
pub mod Layout
use void_protocol_oss.Base.{ℕ, [], ◌∷◌, if◌then◌else◌}
use void_protocol_oss.Base.Bytes.{Bytes, bytes_eq}
use void_protocol_oss.Base.Ints.{ℤ}
use void_protocol_oss.Protocol.Kaitai.{Kaitai, Parser, pure, ◌>>=◌, ◌>>◌}
use void_protocol_oss.Protocol.Header.{valid}
use void_protocol_oss.Protocol.Common.{
  AssetId, SettlementStatus, SysState, Ed25519Signature, X25519PublicKey, RelayOps, Vector3d,
  Vector3f, read_ed25519_signature, read_x25519_public_key, read_relay_ops, read_vector3d,
  read_vector3f,
}

-- System heartbeat, 34 bytes.
pub record HeartbeatBody : Type 0 where
  pub pad_head : Bytes
  pub epoch_ts : ℕ
  pub pressure_pa : ℕ
  pub lat_fixed : ℤ
  pub lon_fixed : ℤ
  pub vbatt_mv : ℕ
  pub temp_c : ℤ
  pub gps_speed_cms : ℕ
  pub sys_state : SysState
  pub sat_lock : ℕ
  pub crc32 : ℕ

-- The handshake, 106 bytes.
pub record PacketHBody : Type 0 where
  pub session_ttl : ℕ
  pub timestamp : ℕ
  pub eph_pub_key : X25519PublicKey
  pub signature : Ed25519Signature

-- The delivery, 122 bytes.
pub record PacketDBody : Type 0 where
  pub magic : Bytes
  pub pad_head : Bytes
  pub downlink_ts : ℕ
  pub sat_b_id : ℕ
  pub payload : Bytes
  pub global_crc : ℕ
  pub tail : Bytes

module _ (k : Kaitai) where
  unfoldable pub read_heartbeat_body : Parser k.Stream HeartbeatBody
  read_heartbeat_body = do
    pad_head ← k.read_bytes 2
    epoch_ts ← k.read_u8le
    pressure_pa ← k.read_u4le
    lat_fixed ← k.read_s4le
    lon_fixed ← k.read_s4le
    vbatt_mv ← k.read_u2le
    temp_c ← k.read_s2le
    gps_speed_cms ← k.read_u2le
    sys_state ← k.read_u1
    sat_lock ← k.read_u1
    crc32 ← k.read_u4le
    pure (record {
      pad_head = pad_head;
      epoch_ts = epoch_ts;
      pressure_pa = pressure_pa;
      lat_fixed = lat_fixed;
      lon_fixed = lon_fixed;
      vbatt_mv = vbatt_mv;
      temp_c = temp_c;
      gps_speed_cms = gps_speed_cms;
      sys_state = sys_state;
      sat_lock = sat_lock;
      crc32 = crc32;
    })

  unfoldable pub read_packet_h_body : Parser k.Stream PacketHBody
  read_packet_h_body = do
    session_ttl ← k.read_u2le
    timestamp ← k.read_u8le
    eph_pub_key ← read_x25519_public_key k
    signature ← read_ed25519_signature k
    pure (record {
      session_ttl = session_ttl;
      timestamp = timestamp;
      eph_pub_key = eph_pub_key;
      signature = signature;
    })

  unfoldable pub read_packet_d_body : Parser k.Stream PacketDBody
  read_packet_d_body = do
    magic ← k.read_bytes 1
    valid (bytes_eq magic (208 ∷ []))
    pad_head ← k.read_bytes 1
    downlink_ts ← k.read_u8le
    sat_b_id ← k.read_u4le
    payload ← k.read_bytes 98
    global_crc ← k.read_u4le
    tail ← k.read_bytes 6
    pure (record {
      magic = magic;
      pad_head = pad_head;
      downlink_ts = downlink_ts;
      sat_b_id = sat_b_id;
      payload = payload;
      global_crc = global_crc;
      tail = tail;
    })
