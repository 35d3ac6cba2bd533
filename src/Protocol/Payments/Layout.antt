-- ===== src/Protocol/Payments/Layout.antt =====
-- What the readers of invoice, payment and receipt make of a body.
use void_protocol_oss.Base.{◌≡◌, some, length, slice}
use void_protocol_oss.Base.Bytes.{Bytes}
use void_protocol_oss.Protocol.Kaitai.{Kaitai, only}
use void_protocol_oss.Protocol.Reads.{bind-Reads, map-Reads, read_whole}
use void_protocol_oss.Protocol.Fields.{
  le_at, vector3d_at, vector3f_at, signature_at, bytes-Reads, u1-Reads, u2le-Reads, u4le-Reads,
  u8le-Reads, signature-Reads, vector3d-Reads, vector3f-Reads,
}
use void_protocol_oss.Protocol.Payments.{
  PacketABody, PacketBBody, PacketCBody, read_packet_a_body, read_packet_b_body, read_packet_c_body,
}

abbrev pub packet_a_body_fields : Bytes → PacketABody
packet_a_body_fields bs = record {
  pad_head = slice 0 2 bs;
  epoch_ts = le_at 8 2 bs;
  pos_vec = vector3d_at 10 bs;
  vel_vec = vector3f_at 34 bs;
  sat_id = le_at 4 46 bs;
  amount = le_at 8 50 bs;
  asset_id = le_at 2 58 bs;
  pre_crc = slice 60 2 bs;
  crc32 = le_at 4 62 bs;
}

-- A body of 66 bytes is read field by field, each at its offset.
pub read_packet_a_body-fields :
    (k : Kaitai) (bs : Bytes) (s : k.Stream)
    → k.view s ≡ record { content = bs; offset = 0 }
    → length bs ≡ 66
    → only (read_packet_a_body k s) ≡ (some (packet_a_body_fields bs))
unfolding read_packet_a_body
read_packet_a_body-fields k bs s v l =
    read_whole bs s
      (bind-Reads (bytes-Reads k 2) λ pad_head. bind-Reads (u8le-Reads k) λ epoch_ts.
        bind-Reads (vector3d-Reads k) λ pos_vec. bind-Reads (vector3f-Reads k) λ vel_vec.
          bind-Reads (u4le-Reads k) λ sat_id. bind-Reads (u8le-Reads k) λ amount.
            bind-Reads (u2le-Reads k)
              λ asset_id. bind-Reads (bytes-Reads k 2) λ pre_crc. map-Reads _ (u4le-Reads k))
      v l

abbrev pub packet_b_body_fields : Bytes → PacketBBody
packet_b_body_fields bs = record {
  pad_head = slice 0 2 bs;
  epoch_ts = le_at 8 2 bs;
  pos_vec = vector3d_at 10 bs;
  enc_payload = slice 34 62 bs;
  pre_sat = slice 96 2 bs;
  sat_id = le_at 4 98 bs;
  pre_sig = slice 102 4 bs;
  signature = signature_at 106 bs;
  global_crc = le_at 4 170 bs;
  tail_pad = slice 174 4 bs;
}

-- A body of 178 bytes is read field by field, each at its offset.
pub read_packet_b_body-fields :
    (k : Kaitai) (bs : Bytes) (s : k.Stream)
    → k.view s ≡ record { content = bs; offset = 0 }
    → length bs ≡ 178
    → only (read_packet_b_body k s) ≡ (some (packet_b_body_fields bs))
unfolding read_packet_b_body
read_packet_b_body-fields k bs s v l =
    read_whole bs s
      (bind-Reads (bytes-Reads k 2) λ pad_head. bind-Reads (u8le-Reads k) λ epoch_ts.
        bind-Reads (vector3d-Reads k) λ pos_vec. bind-Reads (bytes-Reads k 62) λ enc_payload.
          bind-Reads (bytes-Reads k 2) λ pre_sat. bind-Reads (u4le-Reads k) λ sat_id.
            bind-Reads (bytes-Reads k 4) λ pre_sig.
              bind-Reads (signature-Reads k)
                λ signature. bind-Reads (u4le-Reads k) λ global_crc. map-Reads _ (bytes-Reads k 4))
      v l

abbrev pub packet_c_body_fields : Bytes → PacketCBody
packet_c_body_fields bs = record {
  pad_head = slice 0 2 bs;
  exec_time = le_at 8 2 bs;
  enc_tx_id = le_at 8 10 bs;
  enc_status = le_at 1 18 bs;
  pad_sig = slice 19 7 bs;
  signature = signature_at 26 bs;
  crc32 = le_at 4 90 bs;
  tail_pad = slice 94 4 bs;
}

-- A body of 98 bytes is read field by field, each at its offset.
pub read_packet_c_body-fields :
    (k : Kaitai) (bs : Bytes) (s : k.Stream)
    → k.view s ≡ record { content = bs; offset = 0 }
    → length bs ≡ 98
    → only (read_packet_c_body k s) ≡ (some (packet_c_body_fields bs))
unfolding read_packet_c_body
read_packet_c_body-fields k bs s v l =
    read_whole bs s
      (bind-Reads (bytes-Reads k 2) λ pad_head. bind-Reads (u8le-Reads k) λ exec_time.
        bind-Reads (u8le-Reads k) λ enc_tx_id. bind-Reads (u1-Reads k) λ enc_status.
          bind-Reads (bytes-Reads k 7) λ pad_sig.
            bind-Reads (signature-Reads k)
              λ signature. bind-Reads (u4le-Reads k) λ crc32. map-Reads _ (bytes-Reads k 4))
      v l
