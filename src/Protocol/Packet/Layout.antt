-- ===== src/Protocol/Packet/Layout.antt =====
-- The frame as a function of its bytes, each part at its offset.
use void_protocol_oss.Base.{
  ℕ, ◌+◌, Bool, true, false, Option, none, some, [], ◌∷◌, length, slice, leb, ◌==◌, if◌then◌else◌,
}
use void_protocol_oss.Base.Bytes.{Bytes, bytes_eq}
use void_protocol_oss.Protocol.Reads.{chain}
use void_protocol_oss.Protocol.Fields.{le_at, be_at, ccsds_at}
use void_protocol_oss.Protocol.Header.{sync_bytes}
use void_protocol_oss.Protocol.Payments.Layout.{
  packet_a_body_fields, packet_b_body_fields, packet_c_body_fields,
}
use void_protocol_oss.Protocol.Telemetry.Layout.{
  heartbeat_body_fields, packet_h_body_fields, packet_d_body_fields,
}
use void_protocol_oss.Protocol.Acks.Layout.{
  packet_ack_body_ccsds_fields, packet_ack_body_snlp_fields,
}
use void_protocol_oss.Protocol.Packet.{
  RoutingHeader, ccsds_tier, snlp_tier, Dispatch122, ack_snlp, delivery, nil_content, Body,
  handshake, ack_ccsds, dispatch_122, payment, heartbeat, invoice, receipt, nil_body, VoidProtocol,
  body_length,
}

abbrev pub dispatch_fields : Bytes → Dispatch122
dispatch_fields raw =
    if le_at 1 0 raw == 172
    then ack_snlp (packet_ack_body_snlp_fields raw)
    else if le_at 1 0 raw == 208
    then delivery (packet_d_body_fields raw)
    else nil_content

-- The body of a length, from the bytes of the body; the acknowledgement of the CCSDS tier is
-- refused where its magic byte is wrong.
abbrev pub body_fields : ℕ → Bytes → Option Body
body_fields n raw =
    if n == 106
    then some (handshake (packet_h_body_fields raw))
    else if n == 114
    then chain
        (if bytes_eq (slice 0 1 raw) (172 ∷ [])
          then some (packet_ack_body_ccsds_fields raw)
          else none)
        (λ b. some (ack_ccsds b))
    else if n == 122
    then some (dispatch_122 (dispatch_fields raw))
    else if n == 178
    then some (payment (packet_b_body_fields raw))
    else if n == 34
    then some (heartbeat (heartbeat_body_fields raw))
    else if n == 66
    then some (invoice (packet_a_body_fields raw))
    else if n == 98
    then some (receipt (packet_c_body_fields raw))
    else some nil_body

abbrev pub header_size : Bool → ℕ
header_size false = 6
header_size true = 14

abbrev pub header_fields : Bool → Bytes → Option RoutingHeader
header_fields false bs = some (ccsds_tier (ccsds_at 0 bs))
header_fields true bs =
    if bytes_eq (slice 0 4 bs) sync_bytes
    then (if be_at 4 10 bs == 0
        then some (
            snlp_tier (record {
              sync_word = slice 0 4 bs;
              ccsds = ccsds_at 4 bs;
              align_pad = be_at 4 10 bs;
            }))
        else none)
    else none

abbrev pub with_body : Bool → RoutingHeader → Bytes → Option VoidProtocol
with_body snlp h raw =
    chain (body_fields (body_length h) raw)
      λ b. some (record { is_snlp = snlp; routing_header = h; raw_body = raw; body = b })

-- The frame of a tier with a header.
abbrev pub with_header : Bool → Bytes → RoutingHeader → Option VoidProtocol
with_header snlp bs h =
    if leb (header_size snlp + body_length h) (length bs)
    then with_body snlp h (slice (header_size snlp) (body_length h) bs)
    else none

abbrev pub tier_fields : Bool → Bytes → Option VoidProtocol
tier_fields snlp bs =
    if leb (header_size snlp) (length bs)
    then chain (header_fields snlp bs) (with_header snlp bs)
    else none

abbrev pub frame_fields : Bytes → Option VoidProtocol
frame_fields bs = if leb 4 (length bs) then tier_fields (be_at 4 0 bs == 486647205) bs else none
