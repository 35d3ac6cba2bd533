-- ===== src/Generator.antt =====
-- gateway/test/utils/generate_packets.go: the golden frames, one for each kind of packet and tier,
-- that the tests of the gateway and of the firmware read.
pub mod Vectors
pub mod Golden
pub mod Settles
use Prim.Native.Nat.{bit_and, bit_or}
use void_protocol_oss.Base.{
  ℕ, zero, suc, ◌+◌, ◌-◌, ◌*◌, ◌/◌, ◌%◌, ◌^◌, Bool, true, false, not, Option, none, some, List, [],
  ◌∷◌, ◌++◌, length, drop, replicate, ltb, ◌==◌, if◌then◌else◌,
}
use void_protocol_oss.Base.Bytes.{Bytes, codes}
use void_protocol_oss.Base.Words.{le_bytes, le_value}
use void_protocol_oss.Wire.Crc.{Crc32}
use void_protocol_oss.Wire.Signature.{Ed25519}

abbrev pub det_epoch_ts_ms : ℕ
det_epoch_ts_ms = 1710000100000

abbrev pub det_sat_id : ℕ
det_sat_id = 0xCAFEBABE

abbrev pub det_amount : ℕ
det_amount = 420000000

abbrev pub det_asset_id : ℕ
det_asset_id = 1

-- The three float64 and the three float32 as their bit patterns.
abbrev pub det_pos_vec : Bytes
det_pos_vec =
    le_bytes 8 0x40BB620000000000 ++ le_bytes 8 0xC0C76B0000000000 ++ le_bytes 8 0x4081800000000000

abbrev pub det_vel_vec : Bytes
det_vel_vec = le_bytes 4 0x40F00000 ++ le_bytes 4 0xBE4CCCCD ++ le_bytes 4 0x3C23D70A

abbrev pub sync_word : ℕ
sync_word = 0x1D01A5A5

abbrev pub apid_sat_a : ℕ
apid_sat_a = 100

abbrev pub apid_sat_b : ℕ
apid_sat_b = 101

abbrev pub lora_max_len : ℕ
lora_max_len = 255

-- `writeBE` of a uint16 and of a uint32.
abbrev pub be_u16 : ℕ → Bytes
be_u16 n = (n / 256 % 256) ∷ (n % 256) ∷ []

abbrev pub be_u32 : ℕ → Bytes
be_u32 n = be_u16 (n / 65536) ++ be_u16 n

-- `byte(base + i)` for each `i` below a bound.
abbrev pub ramp : ℕ → ℕ → Bytes
ramp base zero = []
ramp base (suc n) = (base % 256) ∷ ramp (base + 1) n

abbrev pub id_field_val : ℕ → Bool → ℕ
id_field_val apid is_cmd =
    bit_or (bit_or ((if is_cmd then 1 else 0) * 2 ^ 12) (2 ^ 11)) (bit_and apid 0x7FF)

abbrev pub build_header : Bool → ℕ → ℕ → Bool → Bytes
build_header is_snlp payload_len apid is_cmd =
    (if is_snlp then be_u32 sync_word else [])
    ++ be_u16 (id_field_val apid is_cmd)
    ++ be_u16 0xC000
    ++ be_u16 (payload_len - 1)
    ++ (if is_snlp then be_u32 0 else [])

-- The fields that an invoice and the payload of a payment have in common.
abbrev pub invoice_fields : Bytes
invoice_fields =
    le_bytes 8 det_epoch_ts_ms
    ++ det_pos_vec
    ++ det_vel_vec
    ++ le_bytes 4 det_sat_id
    ++ le_bytes 8 det_amount
    ++ le_bytes 2 det_asset_id

-- What the handshake and the receipt sign.
abbrev pub handshake_message : Bytes
handshake_message = le_bytes 2 900 ++ le_bytes 8 det_epoch_ts_ms ++ ramp 0xA0 32

abbrev pub receipt_message : Bytes
receipt_message =
    replicate 2 0
    ++ le_bytes 8 det_epoch_ts_ms
    ++ le_bytes 8 0xDEADBEEFCAFEBABE
    ++ le_bytes 1 1
    ++ replicate 7 0

module _ (ed : Ed25519) (crc : Crc32) (seed : Bytes) where
  -- The header, the body, and the checksum over both; then the tail.
  abbrev pub with_crc : Bytes → Bytes → Bytes → Bytes
  with_crc header body tail =
      header ++ (body ++ (le_bytes 4 (crc.checksum_ieee (header ++ body)) ++ tail))

  abbrev pub gen_packet_a : Bool → Bytes
  gen_packet_a is_snlp =
      with_crc (build_header is_snlp 66 apid_sat_a false)
        (replicate 2 0 ++ invoice_fields ++ replicate 2 0) []

  -- The invoice as a payment carries it: its fields, and the word in the last four bytes of
  -- its frame.
  abbrev pub inner_invoice : Bool → Bytes
  inner_invoice is_snlp =
      let packet_a = gen_packet_a is_snlp in
      invoice_fields ++ le_bytes 4 (le_value (drop (length packet_a - 4) packet_a))

  abbrev pub packet_b_before_sig : Bool → Bytes
  packet_b_before_sig is_snlp =
      replicate 2 0
      ++ le_bytes 8 det_epoch_ts_ms
      ++ det_pos_vec
      ++ inner_invoice is_snlp
      ++ replicate 2 0
      ++ le_bytes 4 det_sat_id
      ++ replicate 4 0

  abbrev pub signed_packet_b : Bool → Bytes
  signed_packet_b is_snlp =
      let header = build_header is_snlp 178 apid_sat_b false in
      let before = packet_b_before_sig is_snlp in
      with_crc header (before ++ ed.sign seed (header ++ before)) (replicate 4 0)

  -- None is the end of the program with a fatal error.
  unfoldable pub gen_packet_b : Bool → Option Bytes
  gen_packet_b is_snlp =
      if length (inner_invoice is_snlp) == 62
      then (if length (packet_b_before_sig is_snlp) == 106
          then some (signed_packet_b is_snlp)
          else none)
      else none

  abbrev pub gen_packet_h : Bool → Bytes
  gen_packet_h is_snlp =
      build_header is_snlp 106 apid_sat_b false
      ++ (handshake_message ++ ed.sign seed handshake_message)

  abbrev pub gen_packet_c : Bool → Bytes
  gen_packet_c is_snlp =
      with_crc (build_header is_snlp 98 apid_sat_a false)
        (receipt_message ++ ed.sign seed receipt_message) (replicate 4 0)

  abbrev pub gen_packet_d : Bool → Bytes
  gen_packet_d is_snlp =
      with_crc (build_header is_snlp 122 apid_sat_b false)
        ((0xD0 ∷ 0 ∷ []) ++ le_bytes 8 det_epoch_ts_ms ++ le_bytes 4 det_sat_id ++ ramp 0xE0 98)
        (replicate 6 0)

  abbrev pub gen_packet_ack : Bool → Bytes
  gen_packet_ack is_snlp =
      with_crc (build_header is_snlp (if is_snlp then 122 else 114) apid_sat_b true)
        ((0xAC ∷ 0 ∷ [])
          ++ le_bytes 4 0xCAFEBABE
          ++ le_bytes 1 1
          ++ replicate 1 0
          ++ le_bytes 2 180
          ++ le_bytes 2 45
          ++ le_bytes 4 437200000
          ++ le_bytes 4 5000
          ++ ramp 0xAA (if is_snlp then 96 else 88)
          ++ replicate 2 0)
        []

  -- The longitude is the bit pattern of the int32.
  abbrev pub gen_packet_l : Bool → Bytes
  gen_packet_l is_snlp =
      with_crc (build_header is_snlp 34 apid_sat_b false)
        (replicate 2 0
          ++ le_bytes 8 det_epoch_ts_ms
          ++ le_bytes 4 100800
          ++ le_bytes 4 515000000
          ++ le_bytes 4 (2 ^ 32 - 128000)
          ++ le_bytes 2 4100
          ++ le_bytes 2 2300
          ++ le_bytes 2 600
          ++ le_bytes 1 3
          ++ le_bytes 1 8)
        []
