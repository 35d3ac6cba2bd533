-- ===== src/Generator/Settles.antt =====
-- The golden payment at the ingest endpoint of a started gateway.
use mathlib.Core.List.{append-nil}
use void_protocol_oss.Base.{
  ◌+◌, ◌-◌, ◌≡◌, refl, sym, ap, ◌∙◌, Bool, true, false, some, [], ◌++◌, length, length-append, take,
  slice, take-append_left, replicate, is_some, ◌==◌, arith,
}
use void_protocol_oss.Base.Bytes.{Bytes}
use void_protocol_oss.Base.Words.{le_bytes}
use void_protocol_oss.Wire.Crc.{Crc32}
use void_protocol_oss.Wire.Signature.{Ed25519}
use void_protocol_oss.Protocol.Kaitai.{Kaitai}
use void_protocol_oss.Protocol.Fields.{ccsds_at, be_at}
use void_protocol_oss.Protocol.Header.{version, data_field_length}
use void_protocol_oss.Protocol.Payments.Layout.{packet_b_body_fields}
use void_protocol_oss.Protocol.Packet.{
  RoutingHeader, ccsds_tier, snlp_tier, payment, VoidProtocol, body_length, ccsds_of,
}
use void_protocol_oss.Protocol.Packet.Layout.{frame_fields, body_fields, header_size, header_fields}
use void_protocol_oss.Protocol.Packet.Parts.{parts_frame}
use void_protocol_oss.Registry.{flat_sat_demo_wallet, flat_sat_demo_sat_id}
use void_protocol_oss.Chain.Client.{derive_tx_nonce}
use void_protocol_oss.Receipt.Json.{Json}
use void_protocol_oss.Ingest.{intent_for, ingest_packet}
use void_protocol_oss.Server.{Env, World, Server, done, start}
use void_protocol_oss.Server.Started.{demo_seed, demo_record, demo_payment_settles}
use void_protocol_oss.Generator.{
  det_sat_id, det_amount, det_asset_id, det_epoch_ts_ms, build_header, packet_b_before_sig,
  signed_packet_b, gen_packet_b,
}
use void_protocol_oss.Generator.Golden.{gen_packet_b-made, length-signed_packet_b}

abbrev header : Bool → Bytes
header t = build_header t 178 101 false

abbrev routing_header_of : Bool → RoutingHeader
routing_header_of false = ccsds_tier (ccsds_at 0 (header false))
routing_header_of true = snlp_tier (record {
  sync_word = slice 0 4 (header true);
  ccsds = ccsds_at 4 (header true);
  align_pad = be_at 4 10 (header true);
})

size_lem : (t : Bool) → body_length (routing_header_of t) ≡ 178
unfolding body_length data_field_length
size_lem false = refl
size_lem true = refl

header_lem : (t : Bool) → length (header t) ≡ header_size t
header_lem false = refl
header_lem true = refl

version_lem : (t : Bool) → version (ccsds_of (routing_header_of t)) ≡ 0
unfolding version
version_lem false = refl
version_lem true = refl

module _ (ed : Ed25519) (crc : Crc32) where
  abbrev signature : Bool → Bytes
  signature t = ed.sign demo_seed (header t ++ packet_b_before_sig ed crc demo_seed t)

  abbrev check : Bool → Bytes
  check t =
      le_bytes 4
        (crc.checksum_ieee (header t ++ (packet_b_before_sig ed crc demo_seed t ++ signature t)))
      ++ replicate 4 0

  abbrev body : Bool → Bytes
  body t = (packet_b_before_sig ed crc demo_seed t ++ signature t) ++ check t

  abbrev parts : Bool → VoidProtocol
  parts t = record {
    is_snlp = t;
    routing_header = routing_header_of t;
    raw_body = body t;
    body = payment (packet_b_body_fields (body t));
  }

  raw_lem : (t : Bool) → signed_packet_b ed crc demo_seed t ≡ header t ++ body t
  raw_lem false = refl
  raw_lem true = refl

  body_size : (t : Bool) → length (body t) ≡ 178
  body_size t =
      let raw = ap length (raw_lem t) in
      omega
        (arith, length-signed_packet_b ed crc demo_seed t, raw, length-append (header t) (body t))

  slice_lem : (t : Bool) → slice (header_size t) 178 (header t ++ body t) ≡ body t
  slice_lem false =
      ap (take 178) (sym (append-nil (body false)))
      ∙ take-append_left 178 (body false) [] (sym (body_size false))
  slice_lem true =
      ap (take 178) (sym (append-nil (body true)))
      ∙ take-append_left 178 (body true) [] (sym (body_size true))

  headed_lem : (t : Bool) → header_fields t (header t ++ body t) ≡ some (routing_header_of t)
  headed_lem false = refl
  headed_lem true = refl

  tier_lem : (t : Bool) → (be_at 4 0 (header t ++ body t) == 486647205) ≡ t
  tier_lem false = refl
  tier_lem true = refl

  golden_frame : (t : Bool) → frame_fields (header t ++ body t) ≡ some (parts t)
  golden_frame t = parts_frame (header t ++ body t) (parts t) (record {
    fits = omega (arith, size_lem t, header_lem t, length-append (header t) (body t), body_size t);
    headed = headed_lem t;
    raw =
        sym (slice_lem t)
        ∙ ap (λ n. slice (header_size t) n (header t ++ body t)) (sym (size_lem t));
    parsed = ap (λ n. body_fields n (body t)) (size_lem t);
    tier = tier_lem t;
  })

  signed_lem :
      (t : Bool)
      → take (length (header t ++ body t) - 72) (header t ++ body t)
        ≡ header t ++ packet_b_before_sig ed crc demo_seed t
  signed_lem t = ap (λ n. take n (header t ++ body t)) (cut_size t) ∙ front t
    where
      cut_size : (t : Bool) → length (header t ++ body t) - 72 ≡ header_size t + 106
      cut_size t = omega (arith, header_lem t, length-append (header t) (body t), body_size t)

      front :
          (t : Bool)
          → take (header_size t + 106) (header t ++ body t)
            ≡ header t ++ packet_b_before_sig ed crc demo_seed t
      front false = refl
      front true = refl

  signature_lem : (t : Bool) → slice 106 64 (body t) ≡ signature t
  signature_lem false =
      take-append_left 64 (signature false) (check false) (
        sym (ed.sign_length demo_seed (header false ++ packet_b_before_sig ed crc demo_seed false)))
  signature_lem true =
      take-append_left 64 (signature true) (check true)
        (sym (ed.sign_length demo_seed (header true ++ packet_b_before_sig ed crc demo_seed true)))

  sat_lem : (t : Bool) → (packet_b_body_fields (body t)).sat_id ≡ flat_sat_demo_sat_id
  sat_lem false = refl
  sat_lem true = refl

  module _ (env : Env) (world : World) (json : Json) (k : Kaitai) where
    intent_lem :
        (t : Bool)
        → intent_for world.hex_to_address (packet_b_body_fields (body t)) (demo_record ed)
          ≡ record {
            sat_id = det_sat_id;
            amount = det_amount;
            asset_id = det_asset_id;
            tx_nonce = derive_tx_nonce det_sat_id det_epoch_ts_ms;
            wallet = world.hex_to_address flat_sat_demo_wallet;
          }
    intent_lem false = refl
    intent_lem true = refl

    -- A started gateway with a submitter settles the golden payment of either tier, signed with the
    -- demo's seed: it hands the submitter the generator's satellite, amount and asset, the nonce of
    -- the satellite and the epoch, and the demo's wallet.
    pub golden_payment_settles :
        (t : Bool) (s : Server)
        → start env world ed json ≡ done s
        → is_some s.submitter ≡ true
        → (raw : Bytes) × (gen_packet_b ed crc demo_seed t ≡ some raw)
          × ((ingest_packet k ed crc world.hex_to_address s.registry
                (is_some s.submitter)
                (some raw)).1
              ≡ some (record {
                sat_id = det_sat_id;
                amount = det_amount;
                asset_id = det_asset_id;
                tx_nonce = derive_tx_nonce det_sat_id det_epoch_ts_ms;
                wallet = world.hex_to_address flat_sat_demo_wallet;
              }))
    golden_payment_settles t s e w = (
      header t ++ body t,
      gen_packet_b-made ed crc demo_seed t ∙ ap some (raw_lem t),
      demo_payment_settles env world ed json k crc s (header t ++ body t) (parts t)
            (packet_b_body_fields (body t)) e w (golden_frame t) (version_lem t) refl (sat_lem t)
            (signature_lem t ∙ ap (ed.sign demo_seed) (sym (signed_lem t)))
          ∙ ap some (intent_lem t),
    )
