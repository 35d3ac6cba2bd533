-- ===== src/Ingest/Answered.antt =====
-- A request that settles a payment is answered by success.
use void_protocol_oss.Base.{ℕ, ◌≡◌, Bool, some, All}
use mathlib.Core.Path.{refl, subst}
use void_protocol_oss.Base.Bytes.{Bytes, IsByte}
use void_protocol_oss.Wire.Crc.{Crc32}
use void_protocol_oss.Wire.Signature.{Ed25519}
use void_protocol_oss.Protocol.Kaitai.{Kaitai}
use void_protocol_oss.Protocol.Packet.{global_apid}
use void_protocol_oss.Registry.{Registry}
use void_protocol_oss.Chain.Client.{SettlementIntent}
use void_protocol_oss.Ingest.{success, ingest_packet}
use void_protocol_oss.Ingest.Accepted.{IsAccepted}
use void_protocol_oss.Ingest.Outcome.{ingest_packet_success_iff}
use void_protocol_oss.Ingest.Settlement.{ingest_packet_settles_iff}

-- A request that hands an intent to the submitter is answered by success: no refusal, and no
-- frame that the endpoint rejects, leaves a settlement behind.
pub enqueued_is_answered :
    (k : Kaitai) (ed : Ed25519) (crc : Crc32) (hex_to_address : Bytes → Bytes) (db : Registry)
    (wired : Bool) (raw : Bytes) (i : SettlementIntent)
    → All IsByte raw
    → (ingest_packet k ed crc hex_to_address db wired (some raw)).1 ≡ some i
    → (sat_id : ℕ) × (snlp : Bool) × ((ingest_packet k ed crc hex_to_address db wired (some raw)).0
        ≡ success sat_id snlp)
enqueued_is_answered k ed crc hex_to_address db wired raw i hb e =
    let (_, s) = (ingest_packet_settles_iff k ed crc hex_to_address db wired raw i).0 e in
    let p = s.frame in
    (
      global_apid p,
      p.is_snlp,
      (ingest_packet_success_iff k ed crc hex_to_address db wired raw (global_apid p) p.is_snlp
            hb).1
          (record {
            frame = p;
            parsed = s.parsed;
            known_version = s.known_version;
            content = subst (λ b. IsAccepted ed crc db b raw) s.content.paid s.content.authentic;
            sender = refl;
            tier = refl;
          }),
    )
