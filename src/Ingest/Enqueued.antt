-- ===== src/Ingest/Enqueued.antt =====
-- The intents that the handlers of the bodies leave.
use void_protocol_oss.Base.{
  ℕ, ◌+◌, ◌-◌, ◌≤◌, ◌≡◌, ◌↔◌, refl, sym, ap, ◌∙◌, inl, inr, Bool, true, false, Option, none, some,
  [], length, length-take, length-drop, take, drop, slice, Bool-cases, Option-cases, arith,
}
use mathlib.Core.Path.{subst}
use void_protocol_oss.Base.Bytes.{Bytes, bytes_eq}
use void_protocol_oss.Base.Dict.{nat_Eq, lookup}
use void_protocol_oss.Wire.Crc.{Crc32}
use void_protocol_oss.Wire.Signature.{Ed25519}
use void_protocol_oss.Protocol.Kaitai.{Kaitai}
use void_protocol_oss.Protocol.Payments.{PacketBBody, PacketCBody}
use void_protocol_oss.Protocol.Packet.{
  Dispatch122, ack_snlp, delivery, nil_content, Body, handshake, ack_ccsds, dispatch_122, payment,
  heartbeat, invoice, receipt, nil_body,
}
use void_protocol_oss.Protocol.Packet.Layout.{header_size}
use void_protocol_oss.Protocol.Packet.Choice.{IsChosen}
use void_protocol_oss.Registry.{Registry, SatRecord, get_sat}
use void_protocol_oss.Registry.DemoKey.{IsAuthentic, verify_packet_signature_iff}
use void_protocol_oss.Registry.Verifier.{VerifyError}
use void_protocol_oss.Chain.Client.{SettlementIntent}
use void_protocol_oss.Ingest.{
  after_payment, intent_for, enqueue_settlement_intent, handle_payload_body, handle_receipt,
  handle_dispatch, handle_ack_ccsds, handle_ack, handle_delivery, body_offset_zero,
}
use void_protocol_oss.Ingest.Gates.{handle_payment_lem}

-- The payment that an intent comes from: signed by its sender, whose record has a wallet, over the
-- request without its last 72 bytes.
pub record IsPaid (ed : Ed25519) (hex_to_address : Bytes → Bytes) (db : Registry) (body : Body)
    (raw : Bytes) (i : SettlementIntent) : Type 0 where
  pub b : PacketBBody
  pub paid : payment b ≡ body
  pub authentic : IsAuthentic ed db b.sat_id (take (length raw - 72) raw) b.signature.raw
  pub rec : SatRecord
  pub registered : lookup b.sat_id db ≡ some rec
  pub has_wallet : bytes_eq rec.wallet [] ≡ false
  pub intent : intent_for hex_to_address b rec ≡ i

module _ (hex_to_address : Bytes → Bytes) (db : Registry) where
  enqueue_iff :
      (b : PacketBBody) (i : SettlementIntent)
      → length b.enc_payload ≡ 62
      → (enqueue_settlement_intent hex_to_address db b ≡ some i) ↔ (
          (rec : SatRecord) × (lookup b.sat_id db ≡ some rec)
          × (bytes_eq rec.wallet [] ≡ false)
          × (intent_for hex_to_address b rec ≡ i))
  unfolding enqueue_settlement_intent get_sat
  enqueue_iff b i l = (
    λ e. elim (Option-cases (lookup b.sat_id db)) [
      | inl n ↦ absurd (ground (arith, e, n, l))
      | inr (rec, r) ↦ elim (Bool-cases (bytes_eq rec.wallet [])) [
        | inl w ↦ absurd (ground (arith, e, r, l, w))
        | inr w ↦ (rec, r, w, ground (arith, e, r, l, w))
      ]
    ],
    λ (rec, r, w, same). ground (arith, l, r, w, same),
  )

abbrev is_payment : Body → Bool
is_payment (payment b) = true
is_payment _ = false

unpaid : (b c : PacketBBody) → payment c ≡ payment b → c ≡ b
unpaid b c e = ground (arith, e)

payload_length :
    (snlp : Bool) (n : ℕ) (raw : Bytes)
    → header_size snlp + n ≤ length raw
    → n ≡ 178
    → length (slice 34 62 (slice (header_size snlp) n raw)) ≡ 62
payload_length snlp n raw h l =
    let rb = drop (header_size snlp) raw in
    omega (
      arith,
      h,
      l,
      length-take 62 (drop 34 (take n rb)),
      length-drop 34 (take n rb),
      length-take n rb,
      length-drop (header_size snlp) raw,
    )

module _ (k : Kaitai) (ed : Ed25519) (crc : Crc32) (hex_to_address : Bytes → Bytes) (db : Registry)
    (wired : Bool) where
  abbrev pub Enqueues : Option SettlementIntent → Body → Bytes → SettlementIntent → Type 0
  Enqueues enqueued body raw i =
      (enqueued ≡ some i) ↔ ((wired ≡ true) × IsPaid ed hex_to_address db body raw i)

  after-Enqueues :
      (b : PacketBBody) (raw : Bytes) (i : SettlementIntent) (x : Option VerifyError)
      → length b.enc_payload ≡ 62
      → (x ≡ none) ↔ IsAuthentic ed db b.sat_id (take (length raw - 72) raw) b.signature.raw
      → Enqueues (after_payment k ed crc hex_to_address db wired b x).enqueued (payment b) raw i
  after-Enqueues b raw i (some e) l v = (
    λ q. absurd (ground (arith, q)),
    λ (w, p).
        let same : p.b ≡ b = unpaid b p.b p.paid in
        let bad = v.1 (
          subst (λ c. IsAuthentic ed db c.sat_id (take (length raw - 72) raw) c.signature.raw) same
            p.authentic) in
        absurd (ground (arith, bad)),
  )
  after-Enqueues b raw i none l v = (
    λ q. elim (Bool-cases wired) [
      | inr w ↦ absurd (ground (arith, q, w))
      | inl w ↦
          let (rec, r, has, same) =
            (enqueue_iff hex_to_address db b i l).0 (ground (arith, q, w)) in
          (
            w,
            record {
              b = b;
              paid = refl;
              authentic = v.0 refl;
              rec = rec;
              registered = r;
              has_wallet = has;
              intent = same;
            },
          )
    ],
    λ (w, p).
        let same : p.b ≡ b = unpaid b p.b p.paid in
        let made = (enqueue_iff hex_to_address db b i l).1 (
          p.rec,
          ap (λ c. lookup c.sat_id db) (sym same) ∙ p.registered,
          p.has_wallet,
          ap (λ c. intent_for hex_to_address c p.rec) (sym same) ∙ p.intent,
        ) in
        ground (arith, w, made),
  )

  nothing_enqueued :
      (enqueued : Option SettlementIntent) (body : Body) (raw : Bytes) (i : SettlementIntent)
      → enqueued ≡ none
      → is_payment body ≡ false
      → Enqueues enqueued body raw i
  nothing_enqueued enqueued body raw i e f = (
    λ q. absurd (ground (arith, q, e)),
    λ (w, p). let q = ap is_payment p.paid in absurd (ground (arith, q, f)),
  )

  receipt_nothing :
      (b : PacketCBody) (raw : Bytes) (n : ℕ)
      → (handle_receipt k ed crc hex_to_address db wired b raw n).enqueued ≡ none
  unfolding handle_receipt
  receipt_nothing b raw n = ground arith

  delivery_nothing :
      (m : ℕ) (raw : Bytes) (n : ℕ)
      → (handle_delivery k ed crc hex_to_address db wired m raw n).enqueued ≡ none
  unfolding handle_delivery
  delivery_nothing m raw n = ground arith

  ack_nothing :
      (m : ℕ) (raw : Bytes) (n : ℕ)
      → (handle_ack k ed crc hex_to_address db wired m raw n).enqueued ≡ none
  unfolding handle_ack
  ack_nothing m raw n = ground arith

  dispatch_nothing :
      (c : Dispatch122) (m : Option ℕ) (raw : Bytes) (n : ℕ)
      → (handle_dispatch k ed crc hex_to_address db wired c m raw n).enqueued ≡ none
  dispatch_nothing c none raw n = refl
  dispatch_nothing (ack_snlp b) (some m) raw n = ack_nothing m raw n
  dispatch_nothing (delivery b) (some m) raw n = delivery_nothing m raw n
  dispatch_nothing nil_content (some m) raw n = refl

  ack_ccsds_nothing :
      (m : Option ℕ) (raw : Bytes) (n : ℕ)
      → (handle_ack_ccsds k ed crc hex_to_address db wired m raw n).enqueued ≡ none
  ack_ccsds_nothing none raw n = refl
  ack_ccsds_nothing (some m) raw n = ack_nothing m raw n

  pub body-Enqueues :
      (body : Body) (snlp : Bool) (n : ℕ) (raw : Bytes) (i : SettlementIntent)
      → header_size snlp + n ≤ length raw
      → IsChosen n (slice (header_size snlp) n raw) body
      → Enqueues
          (handle_payload_body k ed crc hex_to_address db wired body raw (length raw) snlp).enqueued
          body
          raw
          i
  unfolding handle_payload_body
  body-Enqueues (payment b) snlp n raw i h (l, c) =
      let sized : length b.enc_payload ≡ 62 =
        ap (λ x. length x.enc_payload) c ∙ payload_length snlp n raw h l in
      rw (handle_payment_lem k ed crc hex_to_address db wired b raw (omega (arith, h, l))) (
        after-Enqueues b raw i _ sized
          (verify_packet_signature_iff ed (take (length raw - 72) raw) b.signature.raw b.sat_id db))
  body-Enqueues (heartbeat b) snlp n raw i h c = nothing_enqueued none _ raw i refl refl
  body-Enqueues (invoice b) snlp n raw i h c = nothing_enqueued none _ raw i refl refl
  body-Enqueues (handshake b) snlp n raw i h c = nothing_enqueued none _ raw i refl refl
  body-Enqueues (receipt b) snlp n raw i h c =
      nothing_enqueued _ _ raw i (receipt_nothing b raw (length raw)) refl
  body-Enqueues (dispatch_122 c) snlp n raw i h e =
      nothing_enqueued _ _ raw i (dispatch_nothing c (body_offset_zero raw snlp) raw (length raw))
        refl
  body-Enqueues (ack_ccsds b) snlp n raw i h c =
      nothing_enqueued _ _ raw i (ack_ccsds_nothing (body_offset_zero raw snlp) raw (length raw))
        refl
  body-Enqueues nil_body snlp n raw i h c = nothing_enqueued none _ raw i refl refl
