-- ===== src/Ingest/Accepted.antt =====
-- The bodies that the endpoint accepts, of a frame that the parser has accepted.
use void_protocol_oss.Base.{
  ℕ, suc, ◌+◌, ◌-◌, ◌≤◌, ◌<◌, ◌≡◌, ◌↔◌, refl, sym, ap, ◌∙◌, inl, inr, Bool, true, false, some, [],
  ◌∷◌, length, take, slice, get_elem?-slice, All, ◌==◌, ==_iff, Bool-cases, arith,
}
use mathlib.Core.Path.{subst}
use void_protocol_oss.Base.Bytes.{Bytes, IsByte, bytes_eq_iff}
use void_protocol_oss.Base.Words.{le_value}
use void_protocol_oss.Wire.Crc.{Crc32}
use void_protocol_oss.Wire.Signature.{Ed25519}
use void_protocol_oss.Protocol.Kaitai.{Kaitai}
use void_protocol_oss.Protocol.Fields.{le_at}
use void_protocol_oss.Protocol.Acks.{PacketAckBodyCcsds}
use void_protocol_oss.Protocol.Packet.{
  Dispatch122, ack_snlp, delivery, nil_content, Body, handshake, ack_ccsds, dispatch_122, payment,
  heartbeat, invoice, receipt, nil_body, VoidProtocol, body_length,
}
use void_protocol_oss.Protocol.Packet.Layout.{dispatch_fields, header_size}
use void_protocol_oss.Protocol.Packet.Parts.{IsFrame}
use void_protocol_oss.Protocol.Packet.Choice.{IsChosen, body_chosen}
use void_protocol_oss.Registry.{Registry}
use void_protocol_oss.Registry.DemoKey.{IsAuthentic}
use void_protocol_oss.Ingest.{
  accepted, handle_payload_body, handle_dispatch, body_offset_zero, unknown_body,
}
use void_protocol_oss.Ingest.Gates.{
  IsChecked, IsPassed, handle_payment-IsPassed, handle_receipt-IsPassed, handle_delivery-IsPassed,
  handle_ack-IsPassed,
}

-- What the bytes of a request must show for the body: for a payment the sender's signature over
-- the request without its last 72 bytes, for a receipt that of satellite 100 over the 26 bytes that
-- begin 98 bytes before its end, for a delivery or an acknowledgement the checksum 10 or 4 bytes
-- before its end; a body of an unknown kind is not accepted.
abbrev pub IsAccepted : Ed25519 → Crc32 → Registry → Body → Bytes → Type 0
IsAccepted ed crc db (heartbeat b) raw = Unit
IsAccepted ed crc db (invoice b) raw = Unit
IsAccepted ed crc db (handshake b) raw = Unit
IsAccepted ed crc db (payment b) raw =
    IsAuthentic ed db b.sat_id (take (length raw - 72) raw) b.signature.raw
IsAccepted ed crc db (receipt b) raw =
    IsAuthentic ed db 100 (slice (length raw - 98) 26 raw) b.signature.raw
IsAccepted ed crc db (dispatch_122 (delivery b)) raw = IsChecked crc (length raw - 10) raw
IsAccepted ed crc db (dispatch_122 (ack_snlp b)) raw = IsChecked crc (length raw - 4) raw
IsAccepted ed crc db (dispatch_122 nil_content) raw = ⊥
IsAccepted ed crc db (ack_ccsds b) raw = IsChecked crc (length raw - 4) raw
IsAccepted ed crc db nil_body raw = ⊥

-- The content that a magic byte stands for.
abbrev pub IsKind : ℕ → Dispatch122 → Type 0
IsKind m (ack_snlp b) = m ≡ 172
IsKind m (delivery b) = m ≡ 208
IsKind m nil_content = Unit

dispatch-IsKind : (raw : Bytes) → IsKind (le_at 1 0 raw) (dispatch_fields raw)
dispatch-IsKind raw = elim (Bool-cases (le_at 1 0 raw == 172)) [
  | inl e ↦ rw e ((==_iff (le_at 1 0 raw) 172).0 e)
  | inr e ↦ elim (Bool-cases (le_at 1 0 raw == 208)) [
    | inl f ↦ rw (e, f) ((==_iff (le_at 1 0 raw) 208).0 f)
    | inr f ↦ rw (e, f) tt
  ]
]

-- The byte that the handler takes for the magic is the first of the body.
pub body_offset_zero_lem :
    (snlp : Bool) (n : ℕ) (raw : Bytes)
    → header_size snlp < length raw
    → (m : ℕ) × (body_offset_zero raw snlp ≡ some m)
      × (slice 0 1 (slice (header_size snlp) (suc n) raw) ≡ m ∷ [])
unfolding body_offset_zero
body_offset_zero_lem false n raw h = get_elem?-slice 6 n raw h
body_offset_zero_lem true n raw h = get_elem?-slice 14 n raw h

header_positive : (snlp : Bool) → 6 ≤ header_size snlp
header_positive false = omega arith
header_positive true = omega arith

one_byte : (bs : Bytes) (m : ℕ) → slice 0 1 bs ≡ m ∷ [] → le_at 1 0 bs ≡ m
one_byte bs m e = ap le_value e ∙ omega arith

-- The handler's magic is that of the content that the parser has chosen.
pub dispatch_magic :
    (c : Dispatch122) (snlp : Bool) (n : ℕ) (raw : Bytes)
    → header_size snlp + n ≤ length raw
    → IsChosen n (slice (header_size snlp) n raw) (dispatch_122 c)
    → (m : ℕ) × (body_offset_zero raw snlp ≡ some m) × IsKind m c
dispatch_magic c snlp n raw h e =
    let l = e.0 in
    let (m, at, one) = body_offset_zero_lem snlp 121 raw (omega (arith, h, l)) in
    let body = slice (header_size snlp) 122 raw in
    let kind =
      subst (IsKind (le_at 1 0 body))
        (ap (λ x. dispatch_fields (slice (header_size snlp) x raw)) (sym l) ∙ sym e.1)
        (dispatch-IsKind body) in
    (m, at, subst (λ x. IsKind x c) (one_byte body m one) kind)

pub ack_magic_lem :
    (b : PacketAckBodyCcsds) (snlp : Bool) (n : ℕ) (raw : Bytes)
    → header_size snlp + n ≤ length raw
    → IsChosen n (slice (header_size snlp) n raw) (ack_ccsds b)
    → body_offset_zero raw snlp ≡ some 172
ack_magic_lem b snlp n raw h e =
    let l = e.0 in
    let (m, at, one) = body_offset_zero_lem snlp 113 raw (omega (arith, h, l)) in
    let first : m ∷ [] ≡ 172 ∷ [] =
      sym one
      ∙ ap (λ x. slice 0 1 (slice (header_size snlp) x raw)) (sym l)
      ∙ (bytes_eq_iff (slice 0 1 (slice (header_size snlp) n raw)) (172 ∷ [])).0 e.1 in
    let byte : m ≡ 172 = ground (arith, first) in at ∙ ap some byte

module _ (k : Kaitai) (ed : Ed25519) (crc : Crc32) (hex_to_address : Bytes → Bytes) (db : Registry)
    (wired : Bool) where
  unknown_refused : IsPassed unknown_body ↔ ⊥
  unknown_refused = (λ p. let q = p.was_known in absurd (ground (arith, q)), λ x. absurd x)

  abbrev Handles : Body → Bool → Bytes → Type 0
  Handles b snlp raw =
      IsPassed (handle_payload_body k ed crc hex_to_address db wired b raw (length raw) snlp)
      ↔ IsAccepted ed crc db b raw

  dispatch_step :
      (c : Dispatch122) (m : ℕ) (raw : Bytes)
      → All IsByte raw
      → 10 ≤ length raw
      → IsKind m c
      → IsPassed (handle_dispatch k ed crc hex_to_address db wired c (some m) raw (length raw))
        ↔ IsAccepted ed crc db (dispatch_122 c) raw
  dispatch_step (ack_snlp b) m raw hb h e =
      rw e (handle_ack-IsPassed k ed crc hex_to_address db wired raw hb (omega (arith, h)))
  dispatch_step (delivery b) m raw hb h e =
      rw e (handle_delivery-IsPassed k ed crc hex_to_address db wired raw hb h)
  dispatch_step nil_content m raw hb h e = unknown_refused

  passes_always : IsPassed accepted ↔ Unit {0}
  passes_always = (λ p. tt, λ t. record { was_known = refl; not_aborted = refl })

  body_handled :
      (b : Body) (snlp : Bool) (n : ℕ) (raw : Bytes)
      → All IsByte raw
      → header_size snlp + n ≤ length raw
      → IsChosen n (slice (header_size snlp) n raw) b
      → Handles b snlp raw
  unfolding handle_payload_body
  body_handled (heartbeat b) snlp n raw hb h c = passes_always
  body_handled (invoice b) snlp n raw hb h c = passes_always
  body_handled (handshake b) snlp n raw hb h c = passes_always
  body_handled (payment b) snlp n raw hb h c =
      let l = c.0 in
      handle_payment-IsPassed k ed crc hex_to_address db wired b raw (omega (arith, h, l))
  body_handled (receipt b) snlp n raw hb h c =
      let l = c.0 in
      handle_receipt-IsPassed k ed crc hex_to_address db wired b raw (omega (arith, h, l))
  body_handled (dispatch_122 c) snlp n raw hb h e =
      let (m, at, kind) = dispatch_magic c snlp n raw h e in
      rw at (dispatch_step c m raw hb (omega (arith, h, e.0)) kind)
  body_handled (ack_ccsds b) snlp n raw hb h e =
      let at = ack_magic_lem b snlp n raw h e in
      rw at (handle_ack-IsPassed k ed crc hex_to_address db wired raw hb (omega (arith, h, e.0)))
  body_handled nil_body snlp n raw hb h c = unknown_refused

  -- Of a frame that the parser has accepted, the handler accepts the body exactly when it must.
  pub frame_handled :
      (raw : Bytes) (p : VoidProtocol)
      → All IsByte raw
      → IsFrame raw p
      → Handles p.body p.is_snlp raw
  frame_handled raw p hb f =
      let c = body_chosen (body_length p.routing_header) p.raw_body p.body f.parsed in
      body_handled p.body p.is_snlp (body_length p.routing_header) raw hb f.fits
        (subst (λ r. IsChosen (body_length p.routing_header) r p.body) f.raw c)
