-- ===== src/Ingest/Tests.antt =====
-- Requests that run through the endpoint, and the theorems at concrete inputs.
use void_protocol_oss.Base.{
  ℕ, ◌≡◌, refl, Bool, true, false, some, none, [], ◌∷◌, ◌++◌, take, drop, slice, replicate, All,
  ◌==◌, if◌then◌else◌, arith,
}
use void_protocol_oss.Base.Bytes.{Bytes, IsByte}
use void_protocol_oss.Base.Words.{le_bytes}
use void_protocol_oss.Wire.Samples.{sample_ed, sample_crc}
use void_protocol_oss.Protocol.Samples.{sample_kaitai}
use void_protocol_oss.Protocol.Kaitai.{only}
use void_protocol_oss.Protocol.Common.{read_vector3d, read_ed25519_signature}
use void_protocol_oss.Protocol.Header.{
  CcsdsPrimaryHeader, total_packet_length, read_ccsds_primary_header, data_field_length, version,
  apid,
}
use void_protocol_oss.Protocol.Payments.{read_packet_b_body}
use void_protocol_oss.Protocol.Lengths.{header_lengths}
use void_protocol_oss.Protocol.Fields.{ccsds_at}
use void_protocol_oss.Protocol.Payments.Layout.{packet_b_body_fields}
use void_protocol_oss.Protocol.Packet.{
  VoidProtocol, payment, ccsds_tier, read_void_protocol, read_is_snlp, magic_peek,
  read_routing_header, read_body, body_length, global_apid,
}
use void_protocol_oss.Base.Dict.{nat_Eq, lookup, insert}
use void_protocol_oss.Base.Text.{hex, hex_decode, hex_decode-hex}
use void_protocol_oss.Registry.{get_sat}
use void_protocol_oss.Registry.Verifier.{verify_packet_signature}
use void_protocol_oss.Chain.Client.{SettlementIntent, derive_tx_nonce}
use void_protocol_oss.Ingest.Outcome.{IsIngested, ingest_packet_success_iff}
use void_protocol_oss.Ingest.Answered.{enqueued_is_answered}
use void_protocol_oss.Ingest.Refusals.{IsRefusal, ingest_packet_refused}
use void_protocol_oss.Ingest.Receipts.{
  built_receipt_accepted, forged_receipt_accepted, receipt_frame,
}
use void_protocol_oss.Receipt.Builder.{Inputs}
use void_protocol_oss.Receipt.Builder.Layout.{snlp_header, packet_c, build_frame}
use void_protocol_oss.Registry.{sat_a, demo_seller, flat_sat_demo_sat_id, load_flat_sat_demo_key}
use void_protocol_oss.Registry.DemoKey.{IsAuthentic, verify_packet_signature_iff, demo_key_verifies}
use void_protocol_oss.Ingest.{handle_payload_body, handle_payment, enqueue_settlement_intent}
use void_protocol_oss.Protocol.Packet.Layout.{frame_fields}
use void_protocol_oss.Protocol.Packet.Frame.{read_void_protocol-fields}
use void_protocol_oss.Registry.{Registry, initialize}
use void_protocol_oss.Ingest.{success, refused, payment_signature, ingest_packet}

abbrev known : Registry
known = initialize []

-- A frame of the CCSDS tier with a payment of satellite 100, signed over its first 112 bytes.
abbrev paid_frame : Bytes
paid_frame =
    (0 ∷ 100 ∷ 192 ∷ 5 ∷ 0 ∷ 177 ∷ [])
    ++ replicate 2 0
    ++ le_bytes 8 1700
    ++ replicate 24 0
    ++ replicate 62 1
    ++ replicate 2 0
    ++ le_bytes 4 100
    ++ replicate 4 0
    ++ (112 ∷ replicate 63 7)
    ++ replicate 8 0

paid_run :
    (ingest_packet sample_kaitai sample_ed sample_crc (λ b. b) known true (some paid_frame)).0
    ≡ success 100 false
unfolding ingest_packet read_void_protocol read_is_snlp magic_peek read_routing_header
    read_ccsds_primary_header body_length data_field_length read_body read_packet_b_body
    read_vector3d read_ed25519_signature version handle_payload_body handle_payment
    verify_packet_signature get_sat lookup initialize insert hex_decode global_apid apid
    enqueue_settlement_intent derive_tx_nonce
paid_run = refl

abbrev paid_intent : SettlementIntent
paid_intent = record {
  sat_id = 100;
  amount = 72340172838076673;
  asset_id = 257;
  tx_nonce = 1844674407370955163300;
  wallet = sat_a.wallet;
}

settled_run :
    (ingest_packet sample_kaitai sample_ed sample_crc (λ b. b) known true (some paid_frame)).1
    ≡ some paid_intent
unfolding ingest_packet read_void_protocol read_is_snlp magic_peek read_routing_header
    read_ccsds_primary_header body_length data_field_length read_body read_packet_b_body
    read_vector3d read_ed25519_signature version handle_payload_body handle_payment
    verify_packet_signature get_sat lookup initialize insert hex_decode global_apid apid
    enqueue_settlement_intent derive_tx_nonce
settled_run = refl

paid_bytes : All IsByte paid_frame
paid_bytes = omega arith

read_void_protocol-fields_example :
    only (read_void_protocol sample_kaitai (sample_kaitai.new_stream paid_frame))
    ≡ frame_fields paid_frame
read_void_protocol-fields_example = read_void_protocol-fields sample_kaitai paid_frame

ingest_packet_success_iff_example : IsIngested sample_ed sample_crc known paid_frame 100 false
ingest_packet_success_iff_example =
    (ingest_packet_success_iff sample_kaitai sample_ed sample_crc (λ b. b) known true paid_frame 100
        false paid_bytes).0
      paid_run

enqueued_is_answered_example :
    (sat_id : ℕ) × (snlp : Bool) × ((ingest_packet sample_kaitai sample_ed sample_crc
        (λ b. b)
        known
        true
        (some paid_frame)).0
      ≡ success sat_id snlp)
enqueued_is_answered_example =
    enqueued_is_answered sample_kaitai sample_ed sample_crc (λ b. b) known true paid_frame
      paid_intent paid_bytes settled_run

-- The same frame with another signature.
abbrev altered_frame : Bytes
altered_frame = take 112 paid_frame ++ (9 ∷ drop 113 paid_frame)

altered_run :
    (ingest_packet sample_kaitai sample_ed sample_crc (λ b. b) known true (some altered_frame)).0
    ≡ refused 400 payment_signature
unfolding ingest_packet read_void_protocol read_is_snlp magic_peek read_routing_header
    read_ccsds_primary_header body_length data_field_length read_body read_packet_b_body
    read_vector3d read_ed25519_signature version handle_payload_body handle_payment
    verify_packet_signature get_sat lookup initialize insert hex_decode global_apid apid
    enqueue_settlement_intent derive_tx_nonce
altered_run = refl

ingest_packet_refused_example :
    IsRefusal sample_ed sample_crc known altered_frame 400 payment_signature
ingest_packet_refused_example =
    ingest_packet_refused sample_kaitai sample_ed sample_crc (λ b. b) known true altered_frame 400
      payment_signature (omega arith) altered_run

-- The public key of the sample signatures is 32 times the byte 5.
abbrev keyed : Registry
keyed = (100, record sat_a { pub_key_hex = hex (replicate 32 5) }) ∷ []

abbrev inputs : Inputs
inputs = record {
  exec_time_ms = 1700;
  enc_tx_id = 42;
  enc_status = 1;
  apid = 100;
  seq_count = 3;
  seed_ed25519 = replicate 32 9;
}

built_receipt_accepted_example :
    (ingest_packet sample_kaitai sample_ed sample_crc
      (λ b. b)
      keyed
      false
      (some (packet_c sample_ed sample_crc inputs))).0
    ≡ success 100 true
unfolding lookup hex_decode
built_receipt_accepted_example =
    built_receipt_accepted sample_kaitai sample_ed sample_crc (λ b. b) keyed false inputs
      (packet_c sample_ed sample_crc inputs) (record sat_a { pub_key_hex = hex (replicate 32 5) })
      (omega arith) refl (hex_decode-hex (replicate 32 5) (omega arith))
      (build_frame sample_ed sample_crc inputs)

-- 26 bytes that satellite 100 has signed, 26 others, and the bytes between and behind.
signed_message : IsAuthentic sample_ed keyed 100 (replicate 26 2) (26 ∷ replicate 63 7)
unfolding lookup hex_decode
signed_message = record {
  rec = record sat_a { pub_key_hex = hex (replicate 32 5) };
  key = replicate 32 5;
  registered = refl;
  decoded = hex_decode-hex (replicate 32 5) (omega arith);
  sized = refl;
  signed_by = refl;
}

forged_receipt_accepted_example :
    (frame_fields (
        snlp_header 7 3 98
        ++ ((replicate 26 1 ++ ((26 ∷ replicate 63 7) ++ replicate 8 0))
            ++ (replicate 26 2 ++ replicate 72 0)))
      ≡ some (receipt_frame 7 3 (replicate 26 1 ++ ((26 ∷ replicate 63 7) ++ replicate 8 0))))
    × ((ingest_packet sample_kaitai sample_ed sample_crc
          (λ b. b)
          keyed
          false
          (some (
            snlp_header 7 3 98
            ++ ((replicate 26 1 ++ ((26 ∷ replicate 63 7) ++ replicate 8 0))
                ++ (replicate 26 2 ++ replicate 72 0))))).0
        ≡ success 7 true)
forged_receipt_accepted_example =
    forged_receipt_accepted sample_kaitai sample_ed sample_crc (λ b. b) keyed false 7 3
      (replicate 26 1) (replicate 8 0) (replicate 26 2) (26 ∷ replicate 63 7) (replicate 72 0) refl
      refl refl refl refl (omega arith) (omega arith) signed_message

verify_packet_signature_iff_example :
    IsAuthentic sample_ed keyed 100 (replicate 26 2) (26 ∷ replicate 63 7)
unfolding verify_packet_signature get_sat lookup hex_decode
verify_packet_signature_iff_example =
    (verify_packet_signature_iff sample_ed (replicate 26 2) (26 ∷ replicate 63 7) 100 keyed).0 refl

demo_key_verifies_example :
    (db' : Registry) × (load_flat_sat_demo_key sample_ed (hex (replicate 32 9)) (initialize [])
      ≡ (db', none))
    × (verify_packet_signature sample_ed
          (1 ∷ [])
          (sample_ed.sign (replicate 32 9) (1 ∷ []))
          flat_sat_demo_sat_id
          db'
        ≡ none)
    × ((id : ℕ)
        → lookup id db' ≡ (
            if flat_sat_demo_sat_id == id
            then some
                (record demo_seller { pub_key_hex = hex (sample_ed.public_key (replicate 32 9)) })
            else lookup id (initialize [])))
demo_key_verifies_example =
    demo_key_verifies sample_ed (replicate 32 9) (1 ∷ []) [] (omega arith) refl

abbrev paid_parts : VoidProtocol
paid_parts = record {
  is_snlp = false;
  routing_header = ccsds_tier (ccsds_at 0 paid_frame);
  raw_body = slice 6 178 paid_frame;
  body = payment (packet_b_body_fields (slice 6 178 paid_frame));
}

paid_fields : frame_fields paid_frame ≡ some paid_parts
unfolding body_length data_field_length
paid_fields = refl

-- The paid frame with one byte behind it: the same frame to the parser, and refused.
abbrev padded_request : Bytes
padded_request = paid_frame ++ (0 ∷ [])

padded_fields : frame_fields padded_request ≡ some paid_parts
unfolding body_length data_field_length
padded_fields = refl

padded_run :
    ingest_packet sample_kaitai sample_ed sample_crc (λ b. b) known true (some padded_request)
    ≡ (refused 400 payment_signature, none)
unfolding ingest_packet read_void_protocol read_is_snlp magic_peek read_routing_header
    read_ccsds_primary_header body_length data_field_length read_body read_packet_b_body
    read_vector3d read_ed25519_signature version handle_payload_body handle_payment
    verify_packet_signature get_sat lookup initialize insert hex_decode global_apid apid
    enqueue_settlement_intent derive_tx_nonce
padded_run = refl

abbrev longest : CcsdsPrimaryHeader
longest = record { version_type_flag_apid = 0; seq_flags_count = 0; packet_data_length = 65535 }

header_lengths_example : (data_field_length longest ≡ 0) × (total_packet_length longest ≡ 6)
header_lengths_example = header_lengths longest (omega arith)
