-- ===== src/Receipt/Tests/Pipeline.antt =====
-- Concrete runs of the frame builder, the CRC gate and the processor, and their theorems at concrete inputs.
use void_protocol_oss.Base.{
  ◌%◌, ◌^◌, ◌≡◌, ◌↔◌, refl, ap, ◌∙◌, true, Option, some, none, [], ◌∷◌, ◌++◌, take, drop, replicate,
  get_elem?, arith,
}
use void_protocol_oss.Base.Bytes.{Bytes}
use void_protocol_oss.Base.Dict.{bytes_Eq, lookup}
use void_protocol_oss.Base.Ints.{pos}
use void_protocol_oss.Base.Words.{le_bytes, le_value, be_value}
use void_protocol_oss.Chain.Watcher.{SettlementEvent}
use void_protocol_oss.Wire.Crc.{validate_frame_crc32, validate_frame_crc32_iff}
use void_protocol_oss.Receipt.Builder.{Inputs, build}
use void_protocol_oss.Receipt.Builder.Layout.{packet_c, build_frame}
use void_protocol_oss.Receipt.Builder.Readback.{build_fields}
use void_protocol_oss.Receipt.Store.{
  Store, StoreError, WriteIo, LoadIo, append, write_line_locked, write_out, ok,
}
use void_protocol_oss.Receipt.Store.History.{restarts, fresh, run}
use void_protocol_oss.Receipt.Processor.{Processor, append_error, handle}
use void_protocol_oss.Receipt.Processor.Outcome.{receipt, handle_outcome}
use void_protocol_oss.Receipt.Processor.Replay.{IsOnChain, replay_after_restart}
use void_protocol_oss.Receipt.Processor.Keys.{event_keys_distinct}
use void_protocol_oss.Receipt.SampleJson.{sample_json, marshal}
use void_protocol_oss.Receipt.SampleEth.{sample_eth}
use void_protocol_oss.Wire.Samples.{sample_ed, sample_crc}

abbrev inputs : Inputs
inputs = record {
  exec_time_ms = 1700000000000;
  enc_tx_id = 77;
  enc_status = 1;
  apid = 100;
  seq_count = 3;
  seed_ed25519 = replicate 32 9;
}

abbrev frame : Bytes
frame = packet_c sample_ed sample_crc inputs

build_frame_example : build sample_ed sample_crc inputs ≡ some frame
build_frame_example = build_frame sample_ed sample_crc inputs

build_fields_example :
    (be_value (take 2 (drop 4 frame)) % 2 ^ 11 ≡ 100)
    × (be_value (take 2 (drop 6 frame)) % 2 ^ 14 ≡ 3)
    × (le_value (take 8 (drop 16 frame)) ≡ 1700000000000)
    × (le_value (take 8 (drop 24 frame)) ≡ 77)
    × (get_elem? frame 32 ≡ some 1)
build_fields_example =
    build_fields sample_ed sample_crc inputs frame (omega arith) (omega arith) (omega arith)
      (omega arith) build_frame_example

validate_frame_crc32_iff_example :
    (validate_frame_crc32 sample_crc frame (pos 104) ≡ none)
    ↔ (drop 104 frame ≡ le_bytes 4 (sample_crc.checksum_ieee (take 104 frame)) ++ drop 108 frame)
validate_frame_crc32_iff_example = validate_frame_crc32_iff sample_crc frame 104 (omega arith)

abbrev event : SettlementEvent
event = record {
  sat_id = 5;
  amount = 1000;
  tx_nonce = 42;
  wallet = replicate 20 1;
  tx_hash = replicate 32 2;
  block_number = 8;
  block_time_sec = 1700000000;
}

event-IsOnChain : IsOnChain event
event-IsOnChain = record {
  sat_id_u32 = omega arith;
  amount_u256 = omega arith;
  tx_nonce_u256 = omega arith;
  block_number_u64 = omega arith;
}

-- The sequence count is at its end.
abbrev processor : Processor
processor = record { store = fresh; seller_apid = 100; seed = replicate 32 9; seq_count = 16383 }

abbrev good_io : WriteIo
good_io = record { stops_after = none; synced = true }

abbrev good_restart : LoadIo
good_restart = record { opened = true; rewound = true; scanned = true; seeked_end = true }

abbrev row : Store × Option StoreError
row =
    append sample_json good_io (receipt sample_eth sample_ed sample_crc sample_json event processor)
      fresh

abbrev handled : Processor
handled = record processor { store = row.0; seq_count = 0 }

handle_outcome_example :
    handle sample_eth sample_ed sample_crc sample_json good_io event processor
    ≡ (handled, append_error row.1)
unfolding lookup
handle_outcome_example =
    handle_outcome sample_eth sample_ed sample_crc sample_json good_io event processor refl
      (omega arith)

row_written : append_error row.1 ≡ none
unfolding append write_line_locked write_out lookup marshal
row_written = refl

first_call :
    handle sample_eth sample_ed sample_crc sample_json good_io event processor ≡ (handled, none)
first_call = handle_outcome_example ∙ ap (λ x. (handled, x)) row_written

no_calls : run sample_json [] fresh ≡ ok fresh
unfolding run
no_calls = refl

replay_after_restart_example :
    (s : Store) × (run sample_json (restarts good_restart ∷ []) handled.store ≡ ok s)
    × ((io : WriteIo) (q : Processor)
        → q.store ≡ s
        → handle sample_eth sample_ed sample_crc sample_json io event q ≡ (q, none))
replay_after_restart_example =
    replay_after_restart sample_eth sample_ed sample_crc sample_json [] (restarts good_restart ∷ [])
      good_io event processor handled tt ((refl, refl, refl, refl), tt) refl event-IsOnChain refl
      (omega arith) no_calls first_call

-- The same settlement, seen in another block.
abbrev moved : SettlementEvent
moved = record event { block_number = 9 }

event_keys_distinct_example : (event.tx_nonce ≡ moved.tx_nonce) × (event.tx_hash ≡ moved.tx_hash)
event_keys_distinct_example =
    event_keys_distinct sample_eth event moved (refl, omega arith) (refl, omega arith) refl
