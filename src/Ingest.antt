-- ===== src/Ingest.antt =====
-- gateway/internal/api/handlers/ingest.go: the endpoint for frames. A request is answered once;
-- an aborted request is answered by the refusal. The log lines are left out.
pub mod Gates
mod Tests
pub mod Answered
pub mod Receipts
pub mod Refusals
pub mod Enqueued
pub mod Settlement
pub mod Outcome
pub mod Accepted
use void_protocol_oss.Base.{
  ℕ, ◌+◌, ◌-◌, Bool, true, false, not, Option, none, some, List, [], ◌∷◌, ◌++◌, length, take, slice,
  get_elem?, ltb, leb, ◌==◌, if◌then◌else◌,
}
use void_protocol_oss.Base.Bytes.{Bytes, bytes_eq}
use void_protocol_oss.Base.Ints.{int_sub}
use void_protocol_oss.Base.Words.{le_value}
use void_protocol_oss.Wire.{packet_b_body_len, packet_b_sig_scope_body}
use void_protocol_oss.Wire.Crc.{
  Crc32, CrcError, packet_d_crc_offset_from_end, packet_ack_crc_offset_from_end,
  validate_frame_crc32,
}
use void_protocol_oss.Wire.Signature.{Ed25519}
use void_protocol_oss.Protocol.Kaitai.{Kaitai, only}
use void_protocol_oss.Protocol.Header.{version}
use void_protocol_oss.Protocol.Payments.{PacketBBody, PacketCBody}
use void_protocol_oss.Protocol.Packet.{
  Dispatch122, ack_snlp, delivery, nil_content, Body, handshake, ack_ccsds, dispatch_122, payment,
  heartbeat, invoice, receipt, nil_body, VoidProtocol, ccsds_of, global_apid, read_void_protocol,
}
use void_protocol_oss.Registry.{Registry, SatRecord, get_sat}
use void_protocol_oss.Registry.Verifier.{VerifyError, verify_packet_signature}
use void_protocol_oss.Chain.Client.{SettlementIntent, derive_tx_nonce}

abbrev pub magic_packet_d : ℕ
magic_packet_d = 0xD0

abbrev pub magic_packet_ack : ℕ
magic_packet_ack = 0xAC

pub data Refusal : Type 0 where
  missing_payload invalid_frame unknown_version unsupported_frame : Refusal
  payment_too_short payment_signature : Refusal
  receipt_too_short receipt_signature : Refusal
  dispatch_too_short delivery_magic delivery_crc : Refusal
  ack_too_short ack_magic ack_crc : Refusal

pub data Reply : Type 0 where
  success : (sat_id : ℕ) (snlp : Bool) → Reply
  refused : (status : ℕ) → Refusal → Reply

-- What the handler of a body leaves: whether it knew the body, the status and the reason with which
-- it aborted the request, and an intent that went to the submitter.
pub record Handled : Type 0 where
  pub known : Bool
  pub aborted : Option (ℕ × Refusal)
  pub enqueued : Option SettlementIntent

abbrev pub accepted : Handled
accepted = record { known = true; aborted = none; enqueued = none }

abbrev pub abort : ℕ → Refusal → Handled
abort status why = record { known = true; aborted = some (status, why); enqueued = none }

abbrev pub unknown_body : Handled
unknown_body = record { known = false; aborted = none; enqueued = none }

-- `hex_to_address` is go-ethereum's `common.HexToAddress`.
module _ (hex_to_address : Bytes → Bytes) where
  abbrev pub intent_for : PacketBBody → SatRecord → SettlementIntent
  intent_for b rec = record {
    sat_id = b.sat_id;
    amount = le_value (slice 48 8 b.enc_payload);
    asset_id = le_value (slice 56 2 b.enc_payload);
    tx_nonce = derive_tx_nonce b.sat_id b.epoch_ts;
    wallet = hex_to_address rec.wallet;
  }

  abbrev pub for_record : PacketBBody → Option SatRecord → Option SettlementIntent
  for_record b none = none
  for_record b (some rec) = if bytes_eq rec.wallet [] then none else some (intent_for b rec)

  unfoldable pub enqueue_settlement_intent : Registry → PacketBBody → Option SettlementIntent
  enqueue_settlement_intent db b =
      if length b.enc_payload == 62 then for_record b (get_sat b.sat_id db) else none

unfoldable pub body_offset_zero : Bytes → Bool → Option ℕ
body_offset_zero raw is_snlp = get_elem? raw (if is_snlp then 14 else 6)

-- The gateway's fixed parts: the registry, and whether a submitter is wired.
module _ (k : Kaitai) (ed : Ed25519) (crc : Crc32) (hex_to_address : Bytes → Bytes) (db : Registry)
    (wired : Bool) where
  abbrev pub after_payment : PacketBBody → Option VerifyError → Handled
  after_payment b (some e) = abort 400 payment_signature
  after_payment b none = record {
    known = true;
    aborted = none;
    enqueued = if wired then enqueue_settlement_intent hex_to_address db b else none;
  }

  unfoldable pub handle_payment : PacketBBody → Bytes → ℕ → Handled
  handle_payment b raw packet_size =
      if ltb packet_size packet_b_body_len
      then abort 400 payment_too_short
      else (let body_start = packet_size - packet_b_body_len in
          let message = take body_start raw ++ slice body_start packet_b_sig_scope_body raw in
          after_payment b (verify_packet_signature ed message b.signature.raw b.sat_id db))

  abbrev pub after_receipt : Option VerifyError → Handled
  after_receipt (some e) = abort 401 receipt_signature
  after_receipt none = accepted

  unfoldable pub handle_receipt : PacketCBody → Bytes → ℕ → Handled
  handle_receipt b raw packet_size =
      if ltb packet_size 98
      then abort 400 receipt_too_short
      else after_receipt
          (verify_packet_signature ed (slice (packet_size - 98) 26 raw) b.signature.raw 100 db)

  abbrev pub after_crc : Refusal → Option CrcError → Handled
  after_crc why (some e) = abort 400 why
  after_crc why none = accepted

  unfoldable pub handle_delivery : ℕ → Bytes → ℕ → Handled
  handle_delivery magic raw packet_size =
      if magic == magic_packet_d
      then after_crc delivery_crc
          (validate_frame_crc32 crc raw (int_sub packet_size packet_d_crc_offset_from_end))
      else abort 400 delivery_magic

  unfoldable pub handle_ack : ℕ → Bytes → ℕ → Handled
  handle_ack magic raw packet_size =
      if magic == magic_packet_ack
      then after_crc ack_crc
          (validate_frame_crc32 crc raw (int_sub packet_size packet_ack_crc_offset_from_end))
      else abort 400 ack_magic

  abbrev pub handle_dispatch : Dispatch122 → Option ℕ → Bytes → ℕ → Handled
  handle_dispatch content none raw packet_size = abort 400 dispatch_too_short
  handle_dispatch (delivery b) (some magic) raw packet_size = handle_delivery magic raw packet_size
  handle_dispatch (ack_snlp b) (some magic) raw packet_size = handle_ack magic raw packet_size
  handle_dispatch nil_content (some magic) raw packet_size = unknown_body

  abbrev pub handle_ack_ccsds : Option ℕ → Bytes → ℕ → Handled
  handle_ack_ccsds none raw packet_size = abort 400 ack_too_short
  handle_ack_ccsds (some magic) raw packet_size = handle_ack magic raw packet_size

  unfoldable pub handle_payload_body : Body → Bytes → ℕ → Bool → Handled
  handle_payload_body (heartbeat b) raw packet_size is_snlp = accepted
  handle_payload_body (invoice b) raw packet_size is_snlp = accepted
  handle_payload_body (payment b) raw packet_size is_snlp = handle_payment b raw packet_size
  handle_payload_body (receipt b) raw packet_size is_snlp = handle_receipt b raw packet_size
  handle_payload_body (handshake b) raw packet_size is_snlp = accepted
  handle_payload_body (dispatch_122 c) raw packet_size is_snlp =
      handle_dispatch c (body_offset_zero raw is_snlp) raw packet_size
  handle_payload_body (ack_ccsds b) raw packet_size is_snlp =
      handle_ack_ccsds (body_offset_zero raw is_snlp) raw packet_size
  handle_payload_body nil_body raw packet_size is_snlp = unknown_body

  -- The answer after the handler of the body.
  abbrev pub answer : VoidProtocol → Handled → Reply
  answer p h = elim h.aborted [
    | some (status, why) ↦ refused status why
    | none ↦ if h.known then success (global_apid p) p.is_snlp else refused 400 unsupported_frame
  ]

  abbrev pub ingest_parsed : Bytes → Option VoidProtocol → Reply × Option SettlementIntent
  ingest_parsed raw none = (refused 400 invalid_frame, none)
  ingest_parsed raw (some p) =
      if version (ccsds_of p.routing_header) == 0
      then (let h = handle_payload_body p.body raw (length raw) p.is_snlp in
          (answer p h, h.enqueued))
      else (refused 400 unknown_version, none)

  -- None is a body that cannot be read.
  unfoldable pub ingest_packet : Option Bytes → Reply × Option SettlementIntent
  ingest_packet none = (refused 400 missing_payload, none)
  ingest_packet (some []) = (refused 400 missing_payload, none)
  ingest_packet (some (b ∷ bs)) =
      ingest_parsed (b ∷ bs) (only (read_void_protocol k (k.new_stream (b ∷ bs))))
