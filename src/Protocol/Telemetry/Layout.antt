-- ===== src/Protocol/Telemetry/Layout.antt =====
-- What the readers of heartbeat, handshake and delivery make of a body.
use void_protocol_oss.Base.{◌≡◌, none, some, [], ◌∷◌, length, slice, if◌then◌else◌}
use void_protocol_oss.Base.Bytes.{Bytes, bytes_eq}
use void_protocol_oss.Base.Ints.{signed}
use void_protocol_oss.Protocol.Kaitai.{Kaitai, only}
use void_protocol_oss.Protocol.Reads.{bind-Reads, map-Reads, read_whole}
use void_protocol_oss.Protocol.Fields.{
  le_at, signature_at, public_key_at, valid-Reads, bytes-Reads, u1-Reads, u2le-Reads, u4le-Reads,
  u8le-Reads, s2le-Reads, s4le-Reads, signature-Reads, public_key-Reads,
}
use void_protocol_oss.Protocol.Telemetry.{
  HeartbeatBody, PacketHBody, PacketDBody, read_heartbeat_body, read_packet_h_body,
  read_packet_d_body,
}

abbrev pub heartbeat_body_fields : Bytes → HeartbeatBody
heartbeat_body_fields bs = record {
  pad_head = slice 0 2 bs;
  epoch_ts = le_at 8 2 bs;
  pressure_pa = le_at 4 10 bs;
  lat_fixed = signed 0x80000000 (le_at 4 14 bs);
  lon_fixed = signed 0x80000000 (le_at 4 18 bs);
  vbatt_mv = le_at 2 22 bs;
  temp_c = signed 0x8000 (le_at 2 24 bs);
  gps_speed_cms = le_at 2 26 bs;
  sys_state = le_at 1 28 bs;
  sat_lock = le_at 1 29 bs;
  crc32 = le_at 4 30 bs;
}

-- A body of 34 bytes is read field by field, each at its offset.
pub read_heartbeat_body-fields :
    (k : Kaitai) (bs : Bytes) (s : k.Stream)
    → k.view s ≡ record { content = bs; offset = 0 }
    → length bs ≡ 34
    → only (read_heartbeat_body k s) ≡ (some (heartbeat_body_fields bs))
unfolding read_heartbeat_body
read_heartbeat_body-fields k bs s v l =
    read_whole bs s
      (bind-Reads (bytes-Reads k 2) λ pad_head. bind-Reads (u8le-Reads k) λ epoch_ts.
        bind-Reads (u4le-Reads k) λ pressure_pa. bind-Reads (s4le-Reads k) λ lat_fixed.
          bind-Reads (s4le-Reads k) λ lon_fixed. bind-Reads (u2le-Reads k) λ vbatt_mv.
            bind-Reads (s2le-Reads k) λ temp_c. bind-Reads (u2le-Reads k) λ gps_speed_cms.
              bind-Reads (u1-Reads k)
                λ sys_state. bind-Reads (u1-Reads k) λ sat_lock. map-Reads _ (u4le-Reads k))
      v l

abbrev pub packet_h_body_fields : Bytes → PacketHBody
packet_h_body_fields bs = record {
  session_ttl = le_at 2 0 bs;
  timestamp = le_at 8 2 bs;
  eph_pub_key = public_key_at 10 bs;
  signature = signature_at 42 bs;
}

-- A body of 106 bytes is read field by field, each at its offset.
pub read_packet_h_body-fields :
    (k : Kaitai) (bs : Bytes) (s : k.Stream)
    → k.view s ≡ record { content = bs; offset = 0 }
    → length bs ≡ 106
    → only (read_packet_h_body k s) ≡ (some (packet_h_body_fields bs))
unfolding read_packet_h_body
read_packet_h_body-fields k bs s v l =
    read_whole bs s
      (bind-Reads (u2le-Reads k) λ session_ttl.
        bind-Reads (u8le-Reads k) λ timestamp.
          bind-Reads (public_key-Reads k) λ eph_pub_key. map-Reads _ (signature-Reads k))
      v l

abbrev pub packet_d_body_fields : Bytes → PacketDBody
packet_d_body_fields bs = record {
  magic = slice 0 1 bs;
  pad_head = slice 1 1 bs;
  downlink_ts = le_at 8 2 bs;
  sat_b_id = le_at 4 10 bs;
  payload = slice 14 98 bs;
  global_crc = le_at 4 112 bs;
  tail = slice 116 6 bs;
}

-- A body of 122 bytes is read field by field, each at its offset, if its first byte is the magic.
pub read_packet_d_body-fields :
    (k : Kaitai) (bs : Bytes) (s : k.Stream)
    → k.view s ≡ record { content = bs; offset = 0 }
    → length bs ≡ 122
    → only (read_packet_d_body k s)
      ≡ (if bytes_eq (slice 0 1 bs) (208 ∷ []) then some (packet_d_body_fields bs) else none)
unfolding read_packet_d_body
read_packet_d_body-fields k bs s v l =
    read_whole bs s
      (bind-Reads (bytes-Reads k 1) λ magic. valid-Reads (bytes_eq magic (208 ∷ [])) (
        bind-Reads (bytes-Reads k 1) λ pad_head. bind-Reads (u8le-Reads k) λ downlink_ts.
          bind-Reads (u4le-Reads k) λ sat_b_id.
            bind-Reads (bytes-Reads k 98)
              λ payload. bind-Reads (u4le-Reads k) λ global_crc. map-Reads _ (bytes-Reads k 6)))
      v l
