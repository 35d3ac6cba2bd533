-- ===== src/Ingest/Settlement.antt =====
-- The settlement intents: what the endpoint hands to the submitter, and for which frames.
use void_protocol_oss.Base.{
  ◌≡◌, ◌↔◌, refl, sym, ap, ◌∙◌, inl, inr, Bool, true, Option, none, some, [], ◌∷◌, length, ◌==◌,
  ==_iff, Bool-cases, eq_of_some, arith,
}
use mathlib.Core.Path.{subst}
use void_protocol_oss.Base.Bytes.{Bytes}
use void_protocol_oss.Base.Dict.{nat_Eq}
use void_protocol_oss.Wire.Crc.{Crc32}
use void_protocol_oss.Wire.Signature.{Ed25519}
use void_protocol_oss.Protocol.Kaitai.{Kaitai}
use void_protocol_oss.Protocol.Header.{version}
use void_protocol_oss.Protocol.Packet.{VoidProtocol, body_length, ccsds_of}
use void_protocol_oss.Protocol.Packet.Layout.{frame_fields}
use void_protocol_oss.Protocol.Packet.Frame.{read_void_protocol-fields}
use void_protocol_oss.Protocol.Packet.Parts.{IsFrame, frame_fields-IsFrame}
use void_protocol_oss.Protocol.Packet.Choice.{IsChosen, body_chosen}
use void_protocol_oss.Registry.{Registry}
use void_protocol_oss.Chain.Client.{SettlementIntent}
use void_protocol_oss.Ingest.{handle_payload_body, ingest_parsed, ingest_packet}
use void_protocol_oss.Ingest.Enqueued.{IsPaid, Enqueues, body-Enqueues}

-- The frame, at the start of the request, that an intent comes from.
pub record IsSettled (ed : Ed25519) (hex_to_address : Bytes → Bytes) (db : Registry) (raw : Bytes)
    (i : SettlementIntent) : Type 0 where
  pub frame : VoidProtocol
  pub parsed : frame_fields raw ≡ some frame
  pub known_version : version (ccsds_of frame.routing_header) ≡ 0
  pub content : IsPaid ed hex_to_address db frame.body raw i

module _ (k : Kaitai) (ed : Ed25519) (crc : Crc32) (hex_to_address : Bytes → Bytes) (db : Registry)
    (wired : Bool) where
  frame-Enqueues :
      (raw : Bytes) (p : VoidProtocol) (i : SettlementIntent)
      → IsFrame raw p
      → Enqueues k ed crc hex_to_address db wired
          (handle_payload_body k ed crc hex_to_address db wired p.body raw
            (length raw)
            p.is_snlp).enqueued
          p.body
          raw
          i
  frame-Enqueues raw p i f =
      let c = body_chosen (body_length p.routing_header) p.raw_body p.body f.parsed in
      body-Enqueues k ed crc hex_to_address db wired p.body p.is_snlp (body_length p.routing_header)
        raw i f.fits (subst (λ r. IsChosen (body_length p.routing_header) r p.body) f.raw c)

  parsed_enqueues :
      (raw : Bytes) (x : Option VoidProtocol) (i : SettlementIntent)
      → frame_fields raw ≡ x
      → ((ingest_parsed k ed crc hex_to_address db wired raw x).1 ≡ some i)
        ↔ ((wired ≡ true) × IsSettled ed hex_to_address db raw i)
  parsed_enqueues raw none i x =
      (λ e. absurd (ground (arith, e)), λ (w, s). let q = s.parsed in absurd (ground (arith, q, x)))
  parsed_enqueues raw (some p) i x =
      let enqueues = frame-Enqueues raw p i (frame_fields-IsFrame raw p x) in
      elim (Bool-cases (version (ccsds_of p.routing_header) == 0)) [
        | inl v ↦ rw v (
          λ e.
              let (w, paid) = enqueues.0 e in
              (
                w,
                record {
                  frame = p;
                  parsed = x;
                  known_version = (==_iff (version (ccsds_of p.routing_header)) 0).0 v;
                  content = paid;
                },
              ),
          λ (w, s).
              let same : s.frame ≡ p = eq_of_some (sym s.parsed ∙ x) in
              enqueues.1 (w, subst (λ q. IsPaid ed hex_to_address db q.body raw i) same s.content),
        )
        | inr v ↦ rw v (
          λ e. absurd (ground (arith, e)),
          λ (_, s).
              let same : s.frame ≡ p = eq_of_some (sym s.parsed ∙ x) in
              let u = ap (λ q. version (ccsds_of q.routing_header)) (sym same) ∙ s.known_version in
              absurd (ground (arith, u, v)),
        )
      ]

  pub ingest_packet_settles_iff :
      (raw : Bytes) (i : SettlementIntent)
      → ((ingest_packet k ed crc hex_to_address db wired (some raw)).1 ≡ some i)
        ↔ ((wired ≡ true) × IsSettled ed hex_to_address db raw i)
  unfolding ingest_packet
  ingest_packet_settles_iff [] i =
      (λ e. absurd (ground (arith, e)), λ (w, s). let q = s.parsed in absurd (ground (arith, q)))
  ingest_packet_settles_iff (b ∷ bs) i =
      rw (read_void_protocol-fields k (b ∷ bs))
        (parsed_enqueues (b ∷ bs) (frame_fields (b ∷ bs)) i refl)
