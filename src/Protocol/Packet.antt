-- ===== src/Protocol/Packet.antt =====
-- void_protocol.go: the frame, with its header of either tier and its body, chosen by its length.
pub mod Layout
pub mod Peek
pub mod Bodies
pub mod Frame
pub mod Parts
pub mod Trailing
pub mod Choice
use void_protocol_oss.Base.{ℕ, Bool, true, false, Option, none, some, ◌==◌, if◌then◌else◌}
use void_protocol_oss.Base.Bytes.{Bytes}
use void_protocol_oss.Protocol.Kaitai.{Kaitai, Parser, pure, only, lift, ◌>>=◌, ◌>>◌}
use void_protocol_oss.Protocol.Header.{
  CcsdsPrimaryHeader, SnlpHeader, read_ccsds_primary_header, read_snlp_header, apid, packet_type,
  data_field_length,
}
use void_protocol_oss.Protocol.Payments.{
  PacketABody, PacketBBody, PacketCBody, read_packet_a_body, read_packet_b_body, read_packet_c_body,
}
use void_protocol_oss.Protocol.Telemetry.{
  HeartbeatBody, PacketHBody, PacketDBody, read_heartbeat_body, read_packet_h_body,
  read_packet_d_body,
}
use void_protocol_oss.Protocol.Acks.{
  PacketAckBodyCcsds, PacketAckBodySnlp, read_packet_ack_body_ccsds, read_packet_ack_body_snlp,
}

pub data RoutingHeader : Type 0 where
  ccsds_tier : CcsdsPrimaryHeader → RoutingHeader
  snlp_tier : SnlpHeader → RoutingHeader

-- The content of a body of 122 bytes; `nil_content` is Go's nil, for an unknown magic byte.
pub data Dispatch122 : Type 0 where
  ack_snlp : PacketAckBodySnlp → Dispatch122
  delivery : PacketDBody → Dispatch122
  nil_content : Dispatch122

-- `nil_body` is Go's nil, for an unknown length.
pub data Body : Type 0 where
  handshake : PacketHBody → Body
  ack_ccsds : PacketAckBodyCcsds → Body
  dispatch_122 : Dispatch122 → Body
  payment : PacketBBody → Body
  heartbeat : HeartbeatBody → Body
  invoice : PacketABody → Body
  receipt : PacketCBody → Body
  nil_body : Body

-- `is_snlp` is the value that `IsSnlp` has cached.
pub record VoidProtocol : Type 0 where
  pub is_snlp : Bool
  pub routing_header : RoutingHeader
  pub raw_body : Bytes
  pub body : Body

abbrev pub ccsds_of : RoutingHeader → CcsdsPrimaryHeader
ccsds_of (ccsds_tier h) = h
ccsds_of (snlp_tier h) = h.ccsds

unfoldable pub body_length : RoutingHeader → ℕ
body_length h = data_field_length (ccsds_of h)

unfoldable pub global_apid : VoidProtocol → ℕ
global_apid p = apid (ccsds_of p.routing_header)

unfoldable pub global_packet_type : VoidProtocol → ℕ
global_packet_type p = packet_type (ccsds_of p.routing_header)

module _ (k : Kaitai) where
  -- A read at the start of the stream, which then goes back to where it was.
  abbrev pub peek : {A : Type 0} → Parser k.Stream A → Parser k.Stream A
  peek p = do pos ← k.pos; k.seek_start 0; a ← p; k.seek_start pos; pure a

  unfoldable pub magic_peek : Parser k.Stream ℕ
  magic_peek = peek k.read_u4be

  unfoldable pub read_is_snlp : Parser k.Stream Bool
  read_is_snlp = do magic ← magic_peek; pure (magic == 486647205)

  unfoldable pub dispatch_magic_peek : Parser k.Stream ℕ
  dispatch_magic_peek = peek k.read_u1

  unfoldable pub read_dispatch_122 : Parser k.Stream Dispatch122
  read_dispatch_122 = do
    magic ← dispatch_magic_peek
    if magic == 172
        then (do b ← read_packet_ack_body_snlp k; pure (ack_snlp b))
        else if magic == 208
        then (do b ← read_packet_d_body k; pure (delivery b))
        else pure nil_content

  -- A reader on a new stream over the bytes of the body.
  abbrev pub inside : {A : Type 0} → Parser k.Stream A → (A → Body) → Bytes → Parser k.Stream Body
  inside p as_body raw = do b ← lift (only (p (k.new_stream raw))); pure (as_body b)

  unfoldable pub read_body : ℕ → Bytes → Parser k.Stream Body
  read_body n raw =
      if n == 106
      then inside (read_packet_h_body k) handshake raw
      else if n == 114
      then inside (read_packet_ack_body_ccsds k) ack_ccsds raw
      else if n == 122
      then inside read_dispatch_122 dispatch_122 raw
      else if n == 178
      then inside (read_packet_b_body k) payment raw
      else if n == 34
      then inside (read_heartbeat_body k) heartbeat raw
      else if n == 66
      then inside (read_packet_a_body k) invoice raw
      else if n == 98
      then inside (read_packet_c_body k) receipt raw
      else pure nil_body

  unfoldable pub read_routing_header : Bool → Parser k.Stream RoutingHeader
  read_routing_header false = do h ← read_ccsds_primary_header k; pure (ccsds_tier h)
  read_routing_header true = do h ← read_snlp_header k; pure (snlp_tier h)

  unfoldable pub read_void_protocol : Parser k.Stream VoidProtocol
  read_void_protocol = do
    is_snlp ← read_is_snlp
    routing_header ← read_routing_header is_snlp
    raw_body ← k.read_bytes (body_length routing_header)
    body ← read_body (body_length routing_header) raw_body
    pure (record {
      is_snlp = is_snlp;
      routing_header = routing_header;
      raw_body = raw_body;
      body = body;
    })
