-- ===== src/Ingest/Outcome.antt =====
-- The answers of the endpoint: when a frame is accepted, and when a payment is settled.
use void_protocol_oss.Base.{
  ℕ, ◌≡◌, ◌↔◌, refl, sym, ap, ◌∙◌, inl, inr, Bool, Option, none, some, [], ◌∷◌, length, All, ◌==◌,
  ==_iff, Bool-cases, Option-cases, eq_of_some, arith,
}
use mathlib.Core.Path.{subst}
use void_protocol_oss.Base.Bytes.{Bytes, IsByte}
use void_protocol_oss.Wire.Crc.{Crc32}
use void_protocol_oss.Wire.Signature.{Ed25519}
use void_protocol_oss.Protocol.Kaitai.{Kaitai}
use void_protocol_oss.Protocol.Header.{version}
use void_protocol_oss.Protocol.Packet.{VoidProtocol, ccsds_of, global_apid}
use void_protocol_oss.Protocol.Packet.Layout.{frame_fields}
use void_protocol_oss.Protocol.Packet.Frame.{read_void_protocol-fields}
use void_protocol_oss.Protocol.Packet.Parts.{frame_fields-IsFrame}
use void_protocol_oss.Registry.{Registry}
use void_protocol_oss.Ingest.{
  Handled, success, answer, handle_payload_body, ingest_parsed, ingest_packet,
}
use void_protocol_oss.Ingest.Gates.{IsPassed}
use void_protocol_oss.Ingest.Accepted.{IsAccepted, frame_handled}

-- A frame that the endpoint accepts, and the satellite and tier that it reports.
pub record IsIngested (ed : Ed25519) (crc : Crc32) (db : Registry) (raw : Bytes) (sat_id : ℕ)
    (snlp : Bool) : Type 0 where
  pub frame : VoidProtocol
  pub parsed : frame_fields raw ≡ some frame
  pub known_version : version (ccsds_of frame.routing_header) ≡ 0
  pub content : IsAccepted ed crc db frame.body raw
  pub sender : global_apid frame ≡ sat_id
  pub tier : frame.is_snlp ≡ snlp

module _ (k : Kaitai) (ed : Ed25519) (crc : Crc32) (hex_to_address : Bytes → Bytes) (db : Registry)
    (wired : Bool) where
  answer_iff :
      (p : VoidProtocol) (h : Handled) (sat_id : ℕ) (snlp : Bool)
      → (answer k ed crc hex_to_address db wired p h ≡ success sat_id snlp)
        ↔ (IsPassed h × (global_apid p ≡ sat_id) × (p.is_snlp ≡ snlp))
  answer_iff p h sat_id snlp = (
    λ e. elim (Option-cases h.aborted) [
      | inr ((status, why), a) ↦ absurd (ground (arith, e, a))
      | inl a ↦ elim (Bool-cases h.known) [
        | inl b ↦ (
          record { was_known = b; not_aborted = a },
          ground (arith, e, a, b),
          ground (arith, e, a, b),
        )
        | inr b ↦ absurd (ground (arith, e, a, b))
      ]
    ],
    λ (ok, s, t). let a = ok.not_aborted in let b = ok.was_known in ground (arith, a, b, s, t),
  )

  parsed_success :
      (raw : Bytes) (x : Option VoidProtocol) (sat_id : ℕ) (snlp : Bool)
      → All IsByte raw
      → frame_fields raw ≡ x
      → ((ingest_parsed k ed crc hex_to_address db wired raw x).0 ≡ success sat_id snlp)
        ↔ IsIngested ed crc db raw sat_id snlp
  parsed_success raw none sat_id snlp hb x =
      (λ e. absurd (ground (arith, e)), λ i. let q = i.parsed in absurd (ground (arith, q, x)))
  parsed_success raw (some p) sat_id snlp hb x =
      let h =
        handle_payload_body k ed crc hex_to_address db wired p.body raw (length raw) p.is_snlp in
      let handled =
        frame_handled k ed crc hex_to_address db wired raw p hb (frame_fields-IsFrame raw p x) in
      elim (Bool-cases (version (ccsds_of p.routing_header) == 0)) [
        | inl v ↦ rw v (
          λ e.
              let (ok, s, t) = (answer_iff p h sat_id snlp).0 e in
              record {
                frame = p;
                parsed = x;
                known_version = (==_iff (version (ccsds_of p.routing_header)) 0).0 v;
                content = handled.0 ok;
                sender = s;
                tier = t;
              },
          λ i.
              let same : i.frame ≡ p = eq_of_some (sym i.parsed ∙ x) in
              (answer_iff p h sat_id snlp).1 (
                handled.1 (subst (λ q. IsAccepted ed crc db q.body raw) same i.content),
                ap global_apid (sym same) ∙ i.sender,
                ap (λ q. q.is_snlp) (sym same) ∙ i.tier,
              ),
        )
        | inr v ↦ rw v (
          λ e. absurd (ground (arith, e)),
          λ i.
              let same : i.frame ≡ p = eq_of_some (sym i.parsed ∙ x) in
              let w = ap (λ q. version (ccsds_of q.routing_header)) (sym same) ∙ i.known_version in
              absurd (ground (arith, w, v)),
        )
      ]

  -- A request of bytes is answered by success, for a satellite and a tier, exactly when a frame of
  -- version 0 that the parser accepts, and which names them, stands at its start, and its body is
  -- accepted: a payment with its sender's signature over the request without its last 72 bytes, a
  -- receipt with that of satellite 100 over the 26 bytes that begin 98 bytes before the end of the
  -- request, a delivery or an acknowledgement with the checksum of the bytes before it 10 or 4 bytes
  -- before the end of the request, and a heartbeat, an invoice or a handshake as it is.
  pub ingest_packet_success_iff :
      (raw : Bytes) (sat_id : ℕ) (snlp : Bool)
      → All IsByte raw
      → ((ingest_packet k ed crc hex_to_address db wired (some raw)).0 ≡ success sat_id snlp)
        ↔ IsIngested ed crc db raw sat_id snlp
  unfolding ingest_packet
  ingest_packet_success_iff [] sat_id snlp hb =
      (λ e. absurd (ground (arith, e)), λ i. let q = i.parsed in absurd (ground (arith, q)))
  ingest_packet_success_iff (b ∷ bs) sat_id snlp hb =
      rw (read_void_protocol-fields k (b ∷ bs))
        (parsed_success (b ∷ bs) (frame_fields (b ∷ bs)) sat_id snlp hb refl)
