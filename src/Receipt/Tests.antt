-- ===== src/Receipt/Tests.antt =====
-- Concrete runs of the receipt store, and the theorems at concrete inputs.
mod Pipeline
mod Endpoints
use void_protocol_oss.Receipt.SampleJson.{sample_json, marshal, unmarshal}
use void_protocol_oss.Base.{
  ℕ, ◌≡◌, refl, inl, inr, true, false, some, none, List, [], ◌∷◌, ◌++◌, length, take, All, arith,
}
use void_protocol_oss.Base.Bytes.{Bytes, codes}
use void_protocol_oss.Base.Dict.{bytes_Eq, lookup, insert}
use void_protocol_oss.Receipt.Record.{
  Record, IsStorable, key_of, default_status, dedup_key, status_dispatched,
}
use void_protocol_oss.Receipt.Store.{
  Store, WriteIo, LoadIo, Loaded, ok, err, malformed, append, mark_dispatched, new_store, count,
  load_table, load_records, load_lines, raw_lines, drop_cr, observe, write_line_locked, write_out,
  pending_records, pending_loop, push,
}
use void_protocol_oss.Receipt.Store.Effect.{IsRow, AreRows}
use void_protocol_oss.Receipt.Store.Index.{IsIndexed}
use void_protocol_oss.Receipt.Store.Pending.{waiting, enqueue, pending_records-waiting}
use void_protocol_oss.Receipt.Store.Queue.{without, append_enqueues, mark_dequeues}
use void_protocol_oss.Receipt.Store.Recovery.{Extends}
use void_protocol_oss.Receipt.Store.History.{
  Event, appends, marks, restarts, fresh, run, step, no_lost_settlement, durable_after,
  history-IsIndexed,
}
use void_protocol_oss.Receipt.Store.Torn.{torn_append_blocks_restart}

abbrev good_write : WriteIo
good_write = record { stops_after = none; synced = true }

abbrev unsynced_write : WriteIo
unsynced_write = record { stops_after = none; synced = false }

abbrev torn_write : WriteIo
torn_write = record { stops_after = some 1; synced = true }

abbrev good_load : LoadIo
good_load = record { opened = true; rewound = true; scanned = true; seeked_end = true }

abbrev row : Bytes → Record
row p = record {
  payment_id = p;
  settlement_tx_hash = codes "h";
  sat_id = 7;
  amount = codes "5";
  asset_id = 1;
  wallet = codes "w";
  packet_c_hex = codes "c";
  block_number = 2;
  ts_ms = 9;
  dispatch_status = [];
}

abbrev first : Record
first = row (codes "1")

abbrev second : Record
second = row (codes "2")

first-IsStorable : IsStorable first
first-IsStorable = omega arith

second-IsStorable : IsStorable second
second-IsStorable = omega arith

abbrev one_row : Store
one_row = (append sample_json good_write first fresh).0

first_appended : append sample_json good_write first fresh ≡ (one_row, none)
unfolding append write_line_locked write_out marshal lookup
first_appended = refl

abbrev acked : Store
acked = (mark_dispatched sample_json good_write (codes "1") (codes "h") one_row).0

first_acked : mark_dispatched sample_json good_write (codes "1") (codes "h") one_row ≡ (acked, none)
unfolding append mark_dispatched write_line_locked write_out marshal lookup insert dedup_key
    default_status
first_acked = refl

one_row_pending : pending_records 10 one_row ≡ default_status first ∷ []
unfolding append write_line_locked write_out marshal lookup insert dedup_key default_status
    pending_records
one_row_pending = refl

acked_not_pending : pending_records 10 acked ≡ []
unfolding append mark_dispatched write_line_locked write_out marshal lookup insert dedup_key
    default_status pending_records
acked_not_pending = refl

abbrev later : List Event
later =
    marks unsynced_write (codes "1") (codes "h")
    ∷ restarts good_load
    ∷ appends good_write second
    ∷ restarts good_load
    ∷ []

no_lost_settlement_example :
    (s'' : Store) × (run sample_json later one_row ≡ ok s'')
    × ((r' : Record) × (lookup (key_of first) s''.records ≡ some r')
        × Extends (default_status first) r')
unfolding run
no_lost_settlement_example =
    no_lost_settlement sample_json [] later good_write first fresh one_row tt
      (
        refl,
        ((refl, refl, refl, refl), ((refl, second-IsStorable), ((refl, refl, refl, refl), tt))),
      )
      (refl, first-IsStorable) refl first_appended

abbrev clean : List Event
clean =
    appends good_write first
    ∷ appends good_write second
    ∷ marks good_write (codes "1") (codes "h")
    ∷ []

abbrev after_clean : Store
after_clean =
    (mark_dispatched sample_json good_write (codes "1") (codes "h")
      (append sample_json good_write second one_row).0).0

clean_runs : run sample_json clean fresh ≡ ok after_clean
unfolding run step
clean_runs = refl

history-IsIndexed_example :
    IsIndexed after_clean.table × (count after_clean ≡ length after_clean.order)
history-IsIndexed_example = history-IsIndexed sample_json clean after_clean clean_runs

pending_records-waiting_example :
    pending_records 10 after_clean ≡ take 10 (waiting after_clean.records after_clean.order)
pending_records-waiting_example = pending_records-waiting 10 after_clean

fresh-IsIndexed : IsIndexed fresh.table
fresh-IsIndexed = record { listed = tt; distinct = tt; sized = refl }

one_row_runs : run sample_json (appends good_write first ∷ []) fresh ≡ ok one_row
unfolding run step
one_row_runs = refl

one_row-AreRows : AreRows one_row.records
one_row-AreRows =
    (durable_after sample_json (appends good_write first ∷ []) one_row
      ((refl, first-IsStorable), tt) one_row_runs).rows

torn_append_blocks_restart_example :
    new_store sample_json good_load (append sample_json torn_write second one_row).0.content
    ≡ err (malformed 2)
unfolding append write_line_locked write_out marshal lookup insert dedup_key default_status
    raw_lines
torn_append_blocks_restart_example =
    torn_append_blocks_restart sample_json (appends good_write first ∷ []) torn_write good_load
      second one_row _ 1 ((refl, first-IsStorable), tt) one_row_runs (refl, refl, refl, refl)
      second-IsStorable refl refl refl refl (omega arith) (omega arith)
