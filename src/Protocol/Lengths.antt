-- ===== src/Protocol/Lengths.antt =====
-- ccsds_primary_header.go: the lengths of the header, with the wrap of their uint16 sums.
use void_protocol_oss.Base.{◌+◌, ◌-◌, ◌^◌, ◌<◌, ◌≡◌, leb, ◌==◌, if◌then◌else◌, arith}
use void_protocol_oss.Protocol.Header.{CcsdsPrimaryHeader, data_field_length, total_packet_length}

-- The body's length is the header's field and one, and the packet's length six more, except at the
-- top of the field's range, where the sums wrap: a body of 0 bytes, a packet of less than 7.
pub header_lengths :
    (h : CcsdsPrimaryHeader)
    → h.packet_data_length < 2 ^ 16
    → (data_field_length h
        ≡ (if h.packet_data_length == 65535 then 0 else h.packet_data_length + 1))
      × (total_packet_length h ≡ (
          if leb 65529 h.packet_data_length
          then h.packet_data_length - 65529
          else h.packet_data_length + 1 + 6))
unfolding data_field_length total_packet_length
header_lengths h b = (ground (arith, b), ground (arith, b))
