-- ===== src/Receipt/Tests/Endpoints.antt =====
-- The egress endpoints over a store with one receipt: their theorems at concrete inputs.
use void_protocol_oss.Base.{
  ◌≡◌, ◌↔◌, refl, ap, ◌||◌, true, false, none, some, [], ◌∷◌, drop, All, arith,
}
use void_protocol_oss.Base.Bytes.{codes, bytes_eq}
use void_protocol_oss.Base.Dict.{bytes_Eq, lookup, insert}
use void_protocol_oss.Receipt.Record.{default_status, dedup_key}
use void_protocol_oss.Receipt.Store.{Store, append, mark_dispatched, write_line_locked, write_out}
use void_protocol_oss.Receipt.Store.History.{appends}
use void_protocol_oss.Receipt.Store.Pending.{waiting}
use void_protocol_oss.Egress.{
  AckRequest, respond, receipts, acknowledged, handle_egress_pending, handle_egress_ack,
}
use void_protocol_oss.Egress.Drain.{Acknowledged, polls_drain}
use void_protocol_oss.Egress.Emptied.{HasKey, Rounds, bouncer_empties_queue}
use void_protocol_oss.Receipt.Store.Lands.{Writes}
use void_protocol_oss.Egress.Answers.{request_key, ack_unknown, ack_again}
use void_protocol_oss.Receipt.SampleJson.{sample_json, sample_json-Marshals, marshal}
use void_protocol_oss.Receipt.Tests.{
  good_write, torn_write, first, first-IsStorable, one_row, one_row_runs, one_row_pending, acked,
}

abbrev request : AckRequest
request = record { payment_id = codes "1"; settlement_tx_hash = codes "h" }

abbrev other_request : AckRequest
other_request = record { payment_id = codes "9"; settlement_tx_hash = codes "h" }

ack_answer :
    handle_egress_ack sample_json good_write (some request) (some one_row)
    ≡ (some acked, respond 200 acknowledged)
unfolding handle_egress_ack append mark_dispatched write_line_locked write_out marshal lookup insert
    dedup_key default_status
ack_answer = refl

page_answer :
    handle_egress_pending (some one_row) ≡ respond 200 (receipts (default_status first ∷ []))
unfolding handle_egress_pending
page_answer = rw one_row_pending refl

page-Acknowledged : Acknowledged sample_json good_write (default_status first ∷ []) one_row acked
unfolding default_status
page-Acknowledged = (acked, ack_answer, refl)

polls_drain_example :
    waiting acked.records acked.order ≡ drop 10 (waiting one_row.records one_row.order)
polls_drain_example =
    polls_drain sample_json good_write (appends good_write first ∷ []) one_row acked
      (default_status first ∷ []) ((refl, first-IsStorable), tt) refl one_row_runs page_answer
      page-Acknowledged

ack_unknown_example :
    ((handle_egress_ack sample_json good_write (some other_request) (some one_row)).1.status ≡ 404)
    ↔ ((bytes_eq other_request.payment_id [] || bytes_eq other_request.settlement_tx_hash []
          ≡ false)
        × (lookup (request_key other_request) one_row.records ≡ none))
ack_unknown_example = ack_unknown sample_json good_write other_request one_row

ack_again_example :
    handle_egress_ack sample_json torn_write (some request) (some acked)
    ≡ (some acked, (handle_egress_ack sample_json good_write (some request) (some one_row)).1)
ack_again_example =
    ack_again sample_json good_write torn_write request one_row acked
      (ap (λ x. x.1.status) ack_answer) (ap (λ x. x.0) ack_answer)

good_write-Writes : Writes good_write
good_write-Writes = record { whole = refl; synced = refl }

one_row_open : one_row.is_open ≡ true
unfolding append write_line_locked write_out marshal lookup
one_row_open = refl

one_row_waiting : waiting one_row.records one_row.order ≡ default_status first ∷ []
unfolding append write_line_locked write_out marshal lookup insert dedup_key default_status waiting
one_row_waiting = refl

one_row_keyed : All HasKey (waiting one_row.records one_row.order)
unfolding default_status
one_row_keyed = rw one_row_waiting (refl, tt)

bouncer_empties_queue_example :
    (s' : Store) × Rounds sample_json sample_json-Marshals good_write good_write-Writes 1 one_row s'
    × (handle_egress_pending (some s') ≡ respond 200 (receipts []))
bouncer_empties_queue_example =
    bouncer_empties_queue sample_json sample_json-Marshals good_write good_write-Writes
      (appends good_write first ∷ []) 1 one_row ((refl, first-IsStorable), tt) one_row_runs
      one_row_open one_row_keyed (rw one_row_waiting (omega arith))
