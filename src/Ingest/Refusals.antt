-- ===== src/Ingest/Refusals.antt =====
-- The refusals of the endpoint, each with its reason.
use void_protocol_oss.Base.{
  ℕ, ◌+◌, ◌≤◌, ◌≡◌, ◌≢◌, refl, sym, ap, ◌∙◌, inl, inr, Bool, Option, none, some, [], ◌∷◌, length,
  slice, All, ◌==◌, ==_iff, Bool-cases, Option-cases, if◌then◌else◌, arith,
}
use mathlib.Core.Path.{subst}
use void_protocol_oss.Base.Bytes.{Bytes, IsByte}
use void_protocol_oss.Wire.Crc.{Crc32, CrcError}
use void_protocol_oss.Wire.Signature.{Ed25519}
use void_protocol_oss.Protocol.Kaitai.{Kaitai}
use void_protocol_oss.Protocol.Header.{version}
use void_protocol_oss.Protocol.Payments.{PacketBBody}
use void_protocol_oss.Protocol.Packet.{
  Dispatch122, ack_snlp, delivery, nil_content, Body, handshake, ack_ccsds, dispatch_122, payment,
  heartbeat, invoice, receipt, nil_body, VoidProtocol, body_length, ccsds_of,
}
use void_protocol_oss.Protocol.Packet.Layout.{header_size, frame_fields}
use void_protocol_oss.Protocol.Packet.Frame.{read_void_protocol-fields}
use void_protocol_oss.Protocol.Packet.Parts.{IsFrame, frame_fields-IsFrame}
use void_protocol_oss.Protocol.Packet.Choice.{IsChosen, body_chosen}
use void_protocol_oss.Registry.{Registry}
use void_protocol_oss.Registry.Verifier.{VerifyError}
use void_protocol_oss.Ingest.{
  Handled, Refusal, missing_payload, invalid_frame, unknown_version, unsupported_frame,
  payment_signature, receipt_signature, delivery_crc, ack_crc, refused, answer, after_payment,
  after_receipt, after_crc, handle_payload_body, handle_dispatch, handle_delivery, handle_ack,
  ingest_parsed, ingest_packet,
}
use void_protocol_oss.Ingest.Gates.{IsPassed, handle_payment_lem, handle_receipt_lem}
use void_protocol_oss.Ingest.Accepted.{
  IsAccepted, IsKind, frame_handled, dispatch_magic, ack_magic_lem,
}

-- The refusal that a body can meet: its signature, its checksum, or that its kind is unknown.
abbrev pub refusal_of : Body → Option (ℕ × Refusal)
refusal_of (payment b) = some (400, payment_signature)
refusal_of (receipt b) = some (401, receipt_signature)
refusal_of (dispatch_122 (delivery b)) = some (400, delivery_crc)
refusal_of (dispatch_122 (ack_snlp b)) = some (400, ack_crc)
refusal_of (dispatch_122 nil_content) = some (400, unsupported_frame)
refusal_of (ack_ccsds b) = some (400, ack_crc)
refusal_of nil_body = some (400, unsupported_frame)
refusal_of (heartbeat b) = none
refusal_of (invoice b) = none
refusal_of (handshake b) = none

-- A reason for a refusal.
pub data IsRefusal (ed : Ed25519) (crc : Crc32) (db : Registry) (raw : Bytes)
    : ℕ → Refusal → Type 0 where
  empty : raw ≡ [] → IsRefusal ed crc db raw 400 missing_payload
  unparsed : frame_fields raw ≡ none → IsRefusal ed crc db raw 400 invalid_frame
  versioned :
      (p : VoidProtocol)
      → frame_fields raw ≡ some p
      → version (ccsds_of p.routing_header) ≢ 0
      → IsRefusal ed crc db raw 400 unknown_version
  unaccepted :
      (p : VoidProtocol) (status : ℕ) (why : Refusal)
      → frame_fields raw ≡ some p
      → version (ccsds_of p.routing_header) ≡ 0
      → refusal_of p.body ≡ some (status, why)
      → ¬ IsAccepted ed crc db p.body raw
      → IsRefusal ed crc db raw status why

-- The refusal that a handler's outcome becomes.
abbrev refusal : Handled → Option (ℕ × Refusal)
refusal h = elim h.aborted [
  | some x ↦ some x
  | none ↦ if h.known then none else some (400, unsupported_frame)
]

module _ (k : Kaitai) (ed : Ed25519) (crc : Crc32) (hex_to_address : Bytes → Bytes) (db : Registry)
    (wired : Bool) where
  abbrev Meets : Handled → Body → ℕ × Refusal → Type 0
  Meets h body x = refusal h ≡ some x → refusal_of body ≡ some x

  payment-Meets :
      (b : PacketBBody) (e : Option VerifyError) (x : ℕ × Refusal)
      → Meets (after_payment k ed crc hex_to_address db wired b e) (payment b) x
  payment-Meets b none x q = absurd (ground (arith, q))
  payment-Meets b (some e) x q = q

  signature-Meets :
      (b : Body) (e : Option VerifyError) (x : ℕ × Refusal)
      → refusal_of b ≡ some (401, receipt_signature)
      → Meets (after_receipt k ed crc hex_to_address db wired e) b x
  signature-Meets b none x r q = absurd (ground (arith, q))
  signature-Meets b (some e) x r q = r ∙ q

  crc-Meets :
      (why : Refusal) (b : Body) (e : Option CrcError) (x : ℕ × Refusal)
      → refusal_of b ≡ some (400, why)
      → Meets (after_crc k ed crc hex_to_address db wired why e) b x
  crc-Meets why b none x r q = absurd (ground (arith, q))
  crc-Meets why b (some e) x r q = r ∙ q

  delivery-Meets :
      (b : Body) (raw : Bytes) (n : ℕ) (x : ℕ × Refusal)
      → refusal_of b ≡ some (400, delivery_crc)
      → Meets (handle_delivery k ed crc hex_to_address db wired 208 raw n) b x
  unfolding handle_delivery
  delivery-Meets b raw n x r = crc-Meets delivery_crc b _ x r

  ack-Meets :
      (b : Body) (raw : Bytes) (n : ℕ) (x : ℕ × Refusal)
      → refusal_of b ≡ some (400, ack_crc)
      → Meets (handle_ack k ed crc hex_to_address db wired 172 raw n) b x
  unfolding handle_ack
  ack-Meets b raw n x r = crc-Meets ack_crc b _ x r

  dispatch-Meets :
      (c : Dispatch122) (m : ℕ) (raw : Bytes) (n : ℕ) (x : ℕ × Refusal)
      → IsKind m c
      → Meets (handle_dispatch k ed crc hex_to_address db wired c (some m) raw n) (dispatch_122 c) x
  dispatch-Meets (ack_snlp b) m raw n x e =
      rw e (ack-Meets (dispatch_122 (ack_snlp b)) raw n x refl)
  dispatch-Meets (delivery b) m raw n x e =
      rw e (delivery-Meets (dispatch_122 (delivery b)) raw n x refl)
  dispatch-Meets nil_content m raw n x e = λ q. q

  body-Meets :
      (body : Body) (snlp : Bool) (n : ℕ) (raw : Bytes) (x : ℕ × Refusal)
      → header_size snlp + n ≤ length raw
      → IsChosen n (slice (header_size snlp) n raw) body
      → Meets
          (handle_payload_body k ed crc hex_to_address db wired body raw (length raw) snlp)
          body
          x
  unfolding handle_payload_body
  body-Meets (payment b) snlp n raw x h (l, c) =
      rw (handle_payment_lem k ed crc hex_to_address db wired b raw (omega (arith, h, l)))
        (payment-Meets b _ x)
  body-Meets (receipt b) snlp n raw x h (l, c) =
      rw (handle_receipt_lem k ed crc hex_to_address db wired b raw (omega (arith, h, l)))
        (signature-Meets (receipt b) _ x refl)
  body-Meets (dispatch_122 c) snlp n raw x h e =
      let (m, at, kind) = dispatch_magic c snlp n raw h e in
      rw at (dispatch-Meets c m raw (length raw) x kind)
  body-Meets (ack_ccsds b) snlp n raw x h e =
      let at = ack_magic_lem b snlp n raw h e in
      rw at (ack-Meets (ack_ccsds b) raw (length raw) x refl)
  body-Meets (heartbeat b) snlp n raw x h c = λ q. absurd (ground (arith, q))
  body-Meets (invoice b) snlp n raw x h c = λ q. absurd (ground (arith, q))
  body-Meets (handshake b) snlp n raw x h c = λ q. absurd (ground (arith, q))
  body-Meets nil_body snlp n raw x h c = λ q. q

  answer_refused :
      (p : VoidProtocol) (h : Handled) (status : ℕ) (why : Refusal)
      → answer k ed crc hex_to_address db wired p h ≡ refused status why
      → refusal h ≡ some (status, why)
  answer_refused p h status why e = elim (Option-cases h.aborted) [
    | inr (x, a) ↦ ground (arith, e, a)
    | inl a ↦ elim (Bool-cases h.known) [
      | inl b ↦ absurd (ground (arith, e, a, b))
      | inr b ↦ ground (arith, e, a, b)
    ]
  ]

  refusal-IsPassed : (h : Handled) (x : ℕ × Refusal) → refusal h ≡ some x → ¬ IsPassed h
  refusal-IsPassed h x e p = let a = p.not_aborted in let b = p.was_known in ground (arith, e, a, b)

  frame-Meets :
      (raw : Bytes) (p : VoidProtocol) (x : ℕ × Refusal)
      → IsFrame raw p
      → Meets
          (handle_payload_body k ed crc hex_to_address db wired p.body raw (length raw) p.is_snlp)
          p.body
          x
  frame-Meets raw p x f =
      let c = body_chosen (body_length p.routing_header) p.raw_body p.body f.parsed in
      body-Meets p.body p.is_snlp (body_length p.routing_header) raw x f.fits
        (subst (λ r. IsChosen (body_length p.routing_header) r p.body) f.raw c)

  as_refused :
      (raw : Bytes) (s : ℕ) (w : Refusal) (status : ℕ) (why : Refusal)
      → IsRefusal ed crc db raw s w
      → refused s w ≡ refused status why
      → IsRefusal ed crc db raw status why
  as_refused raw s w status why r e =
      let a : s ≡ status = ground (arith, e) in
      let b : w ≡ why = cc in
      subst (λ x. IsRefusal ed crc db raw x why) a (subst (IsRefusal ed crc db raw s) b r)

  parsed_refused :
      (raw : Bytes) (x : Option VoidProtocol) (status : ℕ) (why : Refusal)
      → All IsByte raw
      → frame_fields raw ≡ x
      → (ingest_parsed k ed crc hex_to_address db wired raw x).0 ≡ refused status why
      → IsRefusal ed crc db raw status why
  parsed_refused raw none status why hb x e =
      as_refused raw 400 invalid_frame status why (unparsed x) e
  parsed_refused raw (some p) status why hb x e =
      let h =
        handle_payload_body k ed crc hex_to_address db wired p.body raw (length raw) p.is_snlp in
      let f = frame_fields-IsFrame raw p x in
      elim (Bool-cases (version (ccsds_of p.routing_header) == 0)) [
        | inl v ↦
            let r = answer_refused p h status why (ground (arith, e, v)) in
            unaccepted p status why x ((==_iff (version (ccsds_of p.routing_header)) 0).0 v)
              (frame-Meets raw p (status, why) f r)
              (λ a.
                refusal-IsPassed h (status, why) r
                  ((frame_handled k ed crc hex_to_address db wired raw p hb f).1 a))
        | inr v ↦
            as_refused raw 400 unknown_version status why
              (versioned p x (λ z. absurd (ground (arith, z, v)))) (ground (arith, e, v))
      ]

  -- A refusal has its reason: an empty request, one that is not a frame, a version that is not 0,
  -- or a body that is not accepted, with the status and the reason of its kind; so the handler's
  -- other guards, on sizes and on the magic byte, never answer.
  pub ingest_packet_refused :
      (raw : Bytes) (status : ℕ) (why : Refusal)
      → All IsByte raw
      → (ingest_packet k ed crc hex_to_address db wired (some raw)).0 ≡ refused status why
      → IsRefusal ed crc db raw status why
  unfolding ingest_packet
  ingest_packet_refused [] status why hb e =
      as_refused [] 400 missing_payload status why (empty refl) e
  ingest_packet_refused (b ∷ bs) status why hb e =
      parsed_refused (b ∷ bs) (frame_fields (b ∷ bs)) status why hb refl (
        ap (λ x. (ingest_parsed k ed crc hex_to_address db wired (b ∷ bs) x).0)
          (sym (read_void_protocol-fields k (b ∷ bs)))
        ∙ e)
