-- ===== src/Ingest/Gates.antt =====
-- What each kind of body must show to be accepted.
use void_protocol_oss.Base.{
  ℕ, ◌+◌, ◌-◌, ◌≤◌, ◌≡◌, ◌↔◌, refl, ap, ◌∙◌, Bool, true, false, Option, none, some, ◌++◌, length,
  take, drop, slice, take-append-slice, All, ltb, arith,
}
use void_protocol_oss.Base.Bytes.{Bytes, IsByte}
use void_protocol_oss.Base.Ints.{pos, int_sub}
use void_protocol_oss.Base.Words.{le_bytes}
use void_protocol_oss.Wire.Crc.{Crc32, CrcError, validate_frame_crc32, validate_frame_crc32_iff}
use void_protocol_oss.Wire.Signature.{Ed25519}
use void_protocol_oss.Protocol.Kaitai.{Kaitai}
use void_protocol_oss.Protocol.Payments.{PacketBBody, PacketCBody}
use void_protocol_oss.Registry.{Registry}
use void_protocol_oss.Registry.Verifier.{VerifyError, verify_packet_signature}
use void_protocol_oss.Registry.DemoKey.{IsAuthentic, verify_packet_signature_iff}
use void_protocol_oss.Ingest.{
  Handled, after_payment, handle_payment, after_receipt, handle_receipt, after_crc, handle_delivery,
  handle_ack, Refusal, delivery_crc, ack_crc,
}

-- The frame's checksum stands at `n`, over the bytes before it.
pub record IsChecked (crc : Crc32) (n : ℕ) (raw : Bytes) : Type 0 where
  pub checked : drop n raw ≡ le_bytes 4 (crc.checksum_ieee (take n raw)) ++ drop (n + 4) raw

-- The handler knew the body and did not abort the request.
pub record IsPassed (h : Handled) : Type 0 where
  pub was_known : h.known ≡ true
  pub not_aborted : h.aborted ≡ none

not_short : (n m : ℕ) → m ≤ n → ltb n m ≡ false
not_short n m h = ground (arith, h)

both : {A B C : Type 0} → A ↔ B → B ↔ C → A ↔ C
both f g = (λ a. g.0 (f.0 a), λ c. f.1 (g.1 c))

module _ (k : Kaitai) (ed : Ed25519) (crc : Crc32) (hex_to_address : Bytes → Bytes) (db : Registry)
    (wired : Bool) where
  crc_IsPassed :
      (why : Refusal) (x : Option CrcError)
      → IsPassed (after_crc k ed crc hex_to_address db wired why x) ↔ (x ≡ none)
  crc_IsPassed why none = (λ p. refl, λ e. record { was_known = refl; not_aborted = refl })
  crc_IsPassed why (some e) =
      (λ p. let q = p.not_aborted in absurd (ground (arith, q)), λ q. absurd (ground (arith, q)))

  gate :
      (why : Refusal) (raw : Bytes) (o : ℕ)
      → All IsByte raw
      → o ≤ length raw
      → IsPassed (
          after_crc k ed crc hex_to_address db wired why
            (validate_frame_crc32 crc raw (int_sub (length raw) o)))
        ↔ IsChecked crc (length raw - o) raw
  gate why raw o hb hl =
      let at : int_sub (length raw) o ≡ pos (length raw - o) = ground arith in
      let valid = validate_frame_crc32_iff crc raw (length raw - o) hb in
      rw at (
        λ p. record { checked = valid.0 ((crc_IsPassed why _).0 p) },
        λ c. (crc_IsPassed why _).1 (valid.1 c.checked),
      )

  pub handle_payment_lem :
      (b : PacketBBody) (raw : Bytes)
      → 178 ≤ length raw
      → handle_payment k ed crc hex_to_address db wired b raw (length raw)
        ≡ after_payment k ed crc hex_to_address db wired b
            (verify_packet_signature ed (take (length raw - 72) raw) b.signature.raw b.sat_id db)
  unfolding handle_payment
  handle_payment_lem b raw h =
      let message : take (length raw - 178) raw ++ slice (length raw - 178) 106 raw
          ≡ take (length raw - 72) raw =
        take-append-slice (length raw - 178) 106 raw
        ∙ ap (λ n. take n raw) {x = length raw - 178 + 106} {y = length raw - 72} (omega arith) in
      rw (not_short (length raw) 178 h, message) refl

  pub handle_receipt_lem :
      (b : PacketCBody) (raw : Bytes)
      → 98 ≤ length raw
      → handle_receipt k ed crc hex_to_address db wired b raw (length raw)
        ≡ after_receipt k ed crc hex_to_address db wired
            (verify_packet_signature ed (slice (length raw - 98) 26 raw) b.signature.raw 100 db)
  unfolding handle_receipt
  handle_receipt_lem b raw h = rw (not_short (length raw) 98 h) refl

  payment_IsPassed :
      (b : PacketBBody) (x : Option VerifyError)
      → IsPassed (after_payment k ed crc hex_to_address db wired b x) ↔ (x ≡ none)
  payment_IsPassed b none = (λ p. refl, λ e. record { was_known = refl; not_aborted = refl })
  payment_IsPassed b (some e) =
      (λ p. let q = p.not_aborted in absurd (ground (arith, q)), λ q. absurd (ground (arith, q)))

  receipt_IsPassed :
      (x : Option VerifyError)
      → IsPassed (after_receipt k ed crc hex_to_address db wired x) ↔ (x ≡ none)
  receipt_IsPassed none = (λ p. refl, λ e. record { was_known = refl; not_aborted = refl })
  receipt_IsPassed (some e) =
      (λ p. let q = p.not_aborted in absurd (ground (arith, q)), λ q. absurd (ground (arith, q)))

  -- A payment passes exactly when its sender has signed the frame up to the signature.
  pub handle_payment-IsPassed :
      (b : PacketBBody) (raw : Bytes)
      → 178 ≤ length raw
      → IsPassed (handle_payment k ed crc hex_to_address db wired b raw (length raw))
        ↔ IsAuthentic ed db b.sat_id (take (length raw - 72) raw) b.signature.raw
  handle_payment-IsPassed b raw h = rw (handle_payment_lem b raw h) (
      both (payment_IsPassed b _)
        (verify_packet_signature_iff ed (take (length raw - 72) raw) b.signature.raw b.sat_id db))

  -- A receipt passes exactly when satellite 100 has signed 26 bytes, 98 before the end.
  pub handle_receipt-IsPassed :
      (b : PacketCBody) (raw : Bytes)
      → 98 ≤ length raw
      → IsPassed (handle_receipt k ed crc hex_to_address db wired b raw (length raw))
        ↔ IsAuthentic ed db 100 (slice (length raw - 98) 26 raw) b.signature.raw
  handle_receipt-IsPassed b raw h = rw (handle_receipt_lem b raw h) (
      both (receipt_IsPassed _)
        (verify_packet_signature_iff ed (slice (length raw - 98) 26 raw) b.signature.raw 100 db))

  pub handle_delivery-IsPassed :
      (raw : Bytes)
      → All IsByte raw
      → 10 ≤ length raw
      → IsPassed (handle_delivery k ed crc hex_to_address db wired 208 raw (length raw))
        ↔ IsChecked crc (length raw - 10) raw
  unfolding handle_delivery
  handle_delivery-IsPassed raw hb h = gate delivery_crc raw 10 hb h

  pub handle_ack-IsPassed :
      (raw : Bytes)
      → All IsByte raw
      → 4 ≤ length raw
      → IsPassed (handle_ack k ed crc hex_to_address db wired 172 raw (length raw))
        ↔ IsChecked crc (length raw - 4) raw
  unfolding handle_ack
  handle_ack-IsPassed raw hb h = gate ack_crc raw 4 hb h
