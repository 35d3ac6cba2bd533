-- ===== src/Server/Payments.antt =====
-- The payments of a sequence of requests, from the ingest endpoint into the submitter's batches.
use mathlib.Core.List.{append_assoc, append-nil, flatten}
use void_protocol_oss.Base.{
  ◌≡◌, refl, sym, ap, ◌∙◌, inl, inr, true, false, Option, none, some, List, [], ◌∷◌, ◌++◌, length,
  ltb, Bool-cases,
}
use void_protocol_oss.Base.Bytes.{Bytes}
use void_protocol_oss.Wire.Crc.{Crc32}
use void_protocol_oss.Wire.Signature.{Ed25519}
use void_protocol_oss.Protocol.Kaitai.{Kaitai}
use void_protocol_oss.Registry.{Registry}
use void_protocol_oss.Chain.Client.{SettlementIntent}
use void_protocol_oss.Chain.Submitter.{Batch, BufferedSubmitter, enqueue, steal_locked}
use void_protocol_oss.Ingest.{ingest_packet}

-- `Submitter.Enqueue(intent)`, where there is one.
abbrev pub hand_over :
    Option SettlementIntent → BufferedSubmitter → BufferedSubmitter × Option Batch
hand_over none s = (s, none)
hand_over (some i) s = enqueue i s

abbrev pub batches_of : Option Batch → List Batch
batches_of none = []
batches_of (some b) = b ∷ []

abbrev pub intents_of : Option SettlementIntent → Batch
intents_of none = []
intents_of (some i) = i ∷ []

-- What `enqueue` takes on is in the batch that it hands out and in the buffer that it leaves.
pub record IsTaken (s : BufferedSubmitter) (o : Option SettlementIntent)
    (r : BufferedSubmitter × Option Batch) : Type 0 where
  pub open_still : r.0.closed ≡ false
  pub taken : flatten (batches_of r.1) ++ r.0.buf ≡ s.buf ++ intents_of o

pub hand_over-IsTaken :
    (o : Option SettlementIntent) (s : BufferedSubmitter)
    → s.closed ≡ false
    → IsTaken s o (hand_over o s)
unfolding enqueue steal_locked flatten
hand_over-IsTaken none s c = record { open_still = c; taken = sym (append-nil s.buf) }
hand_over-IsTaken (some i) s c = elim (Bool-cases (ltb (length (s.buf ++ (i ∷ []))) s.max_batch)) [
  | inl b ↦ rw (c, b) (record { open_still = refl; taken = refl })
  | inr b ↦ rw (c, b) (record { open_still = refl; taken = append-nil _ ∙ append-nil _ })
]

pub flatten-batches_of :
    (o : Option Batch) (bs : List Batch)
    → flatten (batches_of o ++ bs) ≡ flatten (batches_of o) ++ flatten bs
unfolding flatten
flatten-batches_of none bs = refl
flatten-batches_of (some b) bs = ap (λ x. x ++ flatten bs) (sym (append-nil b))

module _ (k : Kaitai) (ed : Ed25519) (crc : Crc32) (hex_to_address : Bytes → Bytes)
    (db : Registry) where
  -- The intent of a request, with a submitter wired.
  abbrev pub intent_of : Bytes → Option SettlementIntent
  intent_of raw = (ingest_packet k ed crc hex_to_address db true (some raw)).1

  -- The requests one after the other, and the batches that they hand out.
  abbrev pub serve : List Bytes → BufferedSubmitter → BufferedSubmitter × List Batch
  serve [] s = (s, [])
  serve (raw ∷ raws) s =
      let r = hand_over (intent_of raw) s in
      let rest = serve raws r.0 in (rest.0, batches_of r.1 ++ rest.1)

  abbrev pub intents : List Bytes → Batch
  intents [] = []
  intents (raw ∷ raws) = intents_of (intent_of raw) ++ intents raws

  -- As long as the submitter is open, the batches that a sequence of requests hands out, and then
  -- the buffer, hold what was buffered before and the intents of the requests, each once and in
  -- their order.
  pub serve-intents :
      (raws : List Bytes) (s : BufferedSubmitter)
      → s.closed ≡ false
      → flatten (serve raws s).1 ++ (serve raws s).0.buf ≡ s.buf ++ intents raws
  unfolding flatten
  serve-intents [] s c = sym (append-nil s.buf)
  serve-intents (raw ∷ raws) s c =
      let o = intent_of raw in
      let r = hand_over o s in
      let t = hand_over-IsTaken o s c in
      let rest = serve raws r.0 in
      ap (λ x. x ++ rest.0.buf) (flatten-batches_of r.1 rest.1)
      ∙ append_assoc (flatten (batches_of r.1)) (flatten rest.1) rest.0.buf
      ∙ ap (λ x. flatten (batches_of r.1) ++ x) (serve-intents raws r.0 t.open_still)
      ∙ sym (append_assoc (flatten (batches_of r.1)) r.0.buf (intents raws))
      ∙ ap (λ x. x ++ intents raws) t.taken
      ∙ append_assoc s.buf (intents_of o) (intents raws)
