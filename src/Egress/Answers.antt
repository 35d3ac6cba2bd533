-- ===== src/Egress/Answers.antt =====
-- What the acknowledgement endpoint answers.
use void_protocol_oss.Base.{
  ◌≡◌, ◌↔◌, inl, inr, false, ◌||◌, none, some, [], Bool-cases, Option-cases, arith,
}
use void_protocol_oss.Base.Bytes.{Bytes, bytes_eq}
use void_protocol_oss.Base.Dict.{bytes_Eq, lookup, lookup-insert_self}
use void_protocol_oss.Receipt.Record.{dedup_key}
use void_protocol_oss.Receipt.Json.{Json}
use void_protocol_oss.Receipt.Store.{Store, WriteIo, mark_dispatched, write_line_locked, write_out}
use void_protocol_oss.Receipt.Store.Effect.{dispatched}
use void_protocol_oss.Egress.{AckRequest, answer_ack, handle_egress_ack}

abbrev pub request_key : AckRequest → Bytes
request_key req = dedup_key req.payment_id req.settlement_tx_hash

module _ (json : Json) where
  mark_unknown :
      (io : WriteIo) (p h : Bytes) (s : Store)
      → (answer_ack (mark_dispatched json io p h s)).1.status ≡ 404
      → lookup (dedup_key p h) s.records ≡ none
  unfolding mark_dispatched write_line_locked write_out
  mark_unknown io p h s e = ground (arith, e)

  -- The endpoint answers 404 exactly when both parts of the key are given and the store has no such
  -- receipt.
  pub ack_unknown :
      (io : WriteIo) (req : AckRequest) (s : Store)
      → ((handle_egress_ack json io (some req) (some s)).1.status ≡ 404) ↔ (
          (bytes_eq req.payment_id [] || bytes_eq req.settlement_tx_hash [] ≡ false)
          × (lookup (request_key req) s.records ≡ none))
  unfolding handle_egress_ack mark_dispatched
  ack_unknown io req s =
      elim (Bool-cases (bytes_eq req.payment_id [] || bytes_eq req.settlement_tx_hash [])) [
        | inl b ↦ (λ e. absurd (ground (arith, e, b)), λ h. absurd (cc))
        | inr b ↦ (
          λ e. (b, mark_unknown io req.payment_id req.settlement_tx_hash s (ground (arith, e, b))),
          λ h. ground (arith, b, h.1),
        )
      ]

  -- An acknowledgement that was answered 200 may be sent again: whatever the file system does, the
  -- answer is 200 again, and nothing is written.
  pub ack_again :
      (io io' : WriteIo) (req : AckRequest) (s s' : Store)
      → (handle_egress_ack json io (some req) (some s)).1.status ≡ 200
      → (handle_egress_ack json io (some req) (some s)).0 ≡ some s'
      → handle_egress_ack json io' (some req) (some s')
        ≡ (some s', (handle_egress_ack json io (some req) (some s)).1)
  unfolding handle_egress_ack mark_dispatched write_line_locked write_out
  ack_again io io' req s s' e f = elim (Option-cases (lookup (request_key req) s.records)) [
    | inl l ↦ absurd (ground (arith, e, l))
    | inr (r, l) ↦
        ground (arith, e, f, l, lookup-insert_self (request_key req) (dispatched r) s.records)
  ]
