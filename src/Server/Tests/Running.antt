-- ===== src/Server/Tests/Running.antt =====
-- A running gateway: its theorems at concrete inputs.
use mathlib.Core.List.{flatten}
use mathlib.Core.Path.{subst}
use void_protocol_oss.Base.{
  ℕ, ◌+◌, ◌-◌, ◌≡◌, refl, true, Option, none, some, List, [], ◌∷◌, ◌++◌, All, eq_of_some, length,
  is_some, sym, ap, ◌∙◌, arith,
}
use void_protocol_oss.Base.Bytes.{codes}
use void_protocol_oss.Base.Dict.{bytes_Eq, lookup, insert}
use void_protocol_oss.Wire.Samples.{sample_ed, sample_crc}
use void_protocol_oss.Protocol.Samples.{sample_kaitai}
use void_protocol_oss.Chain.Watcher.{Log, EventFilterer}
use void_protocol_oss.Chain.Watcher.Run.Blocks.{chain_node, chain_node-IsHonest}
use void_protocol_oss.Receipt.Record.{Record, IsStorable, default_status, dedup_key}
use void_protocol_oss.Receipt.SampleJson.{sample_json, marshal}
use void_protocol_oss.Receipt.SampleEth.{sample_eth}
use void_protocol_oss.Receipt.Store.{
  Store, WriteIo, ok, append, mark_dispatched, write_line_locked, write_out, pending_records,
  new_store, load_records,
}
use void_protocol_oss.Receipt.Store.Recovery.{Covers, IsExact}
use void_protocol_oss.Receipt.Store.History.{
  appends, restarts, fresh, run, restart_loads, fresh-IsExact, run-IsExact, eq_of_ok,
}
use void_protocol_oss.Egress.{
  AckRequest, respond, receipts, acknowledged, egress_page_size, handle_egress_pending,
  handle_egress_ack,
}
use void_protocol_oss.Egress.Answers.{request_key}
use void_protocol_oss.Server.{
  Receipts, Server, World, done, and_then, loaded, start_receipt_watcher, start,
}
use void_protocol_oss.Server.Delivered.{logs_in-All_each}
use void_protocol_oss.Server.Settlements.{IsSettlementLog}
use void_protocol_oss.Server.Settlements.Polled.{IsEscrowNode}
use void_protocol_oss.Server.Gateway.{
  Worker, Gateway, store_of, idle_worker, egress_store, launch, Input, requests, timer_fires, polls,
  handles, post_ingest, get_pending, post_ack, egressed, cleanup, route, step, serve_all,
}
use void_protocol_oss.Server.Gateway.Rows.{IsSound, IsRunning}
use void_protocol_oss.Server.Gateway.Kept.{HasHistory, acknowledged_stays}
use void_protocol_oss.Server.Gateway.Acked.{OfOtherKey}
use void_protocol_oss.Server.Gateway.Tracked.{IsTracked, none_called}
use void_protocol_oss.Server.Gateway.Tracked.Steps.{gateway_tracks_settlements}
use void_protocol_oss.Server.Gateway.Intents.{
  given_out, intents_of_inputs, gateway_submits_each_once,
}
use void_protocol_oss.Server.Payments.{batches_of}
use void_protocol_oss.Server.Gateway.Launched.{opened_receipts}
use void_protocol_oss.Server.Gateway.Again.{restarted_gateway_continues}
use void_protocol_oss.Server.Started.{demo_seed}
use void_protocol_oss.Registry.{flat_sat_demo_wallet}
use void_protocol_oss.Chain.Client.{derive_tx_nonce}
use void_protocol_oss.Server.Tests.{
  world, online, started, demo_frame, idle_submitter, chain, chain-IsChain, time,
}
use void_protocol_oss.Server.Tests.Settling.{chain-IsEscrowChain}

abbrev write : WriteIo
write = record { stops_after = none; synced = true }

abbrev pub paid : Record
paid = record {
  payment_id = codes "1";
  settlement_tx_hash = codes "h";
  sat_id = 7;
  amount = codes "5";
  asset_id = 1;
  wallet = codes "w";
  packet_c_hex = codes "c";
  block_number = 2;
  ts_ms = 9;
  dispatch_status = [];
}

paid-IsStorable : IsStorable paid
paid-IsStorable = omega arith

abbrev one_row : Store
one_row = (append sample_json write paid fresh).0

one_row_runs : run sample_json (appends write paid ∷ []) fresh ≡ ok one_row
unfolding run void_protocol_oss.Receipt.Store.History.step
one_row_runs = refl

one_row-HasHistory : HasHistory sample_json one_row
one_row-HasHistory = (appends write paid ∷ [], ((refl, paid-IsStorable), tt), one_row_runs)

-- The started gateway, with one receipt in its store.
abbrev first_receipts : Receipts
first_receipts = record {
  egress_store = one_row;
  processor = record { store = one_row; seller_apid = 100; seed = demo_seed; seq_count = 0 };
  watcher = record { next_block = 0 };
  interval = 2000000000;
}

abbrev worker : Worker
worker = idle_worker first_receipts

abbrev gateway : Gateway
gateway = record {
  registry = started.registry;
  submitter = some idle_submitter;
  worker = some worker;
}

worker-IsRunning : IsRunning worker
worker-IsRunning = record { ready = record { seeded = refl; counted = omega arith }; due = tt }

node-IsEscrowNode : IsEscrowNode (chain_node chain chain-IsChain time 7)
node-IsEscrowNode = record {
  reports = λ from to ls e.
      subst (All IsSettlementLog) (eq_of_some e)
        (logs_in-All_each IsSettlementLog chain from (to + 1 - from) chain-IsEscrowChain.settles);
}

abbrev inputs : List Input
inputs =
    requests (post_ingest (some demo_frame))
    ∷ polls (chain_node chain chain-IsChain time 7)
    ∷ requests get_pending
    ∷ timer_fires
    ∷ handles write
    ∷ []

sound : All IsSound inputs
sound = (tt, (node-IsEscrowNode, (tt, (tt, (refl, tt)))))

abbrev request : AckRequest
request = record { payment_id = codes "1"; settlement_tx_hash = codes "h" }

ack_answer :
    (step sample_eth sample_ed sample_crc sample_json sample_kaitai world.hex_to_address
      (requests (post_ack write (some request)))
      gateway).1.response
    ≡ some (egressed (respond 200 acknowledged))
unfolding step route handle_egress_ack append mark_dispatched write_line_locked write_out marshal
    lookup insert dedup_key default_status
ack_answer = refl

acknowledged_stays_example :
    (w' : Worker) × (page : List Record) × (s : Store) × ((serve_all sample_eth sample_ed sample_crc
        sample_json sample_kaitai world.hex_to_address
        (requests (post_ack write (some request)) ∷ inputs)
        gateway).0.worker
      ≡ some w')
    × (handle_egress_pending (egress_store (some w')) ≡ respond 200 (receipts page))
    × All (OfOtherKey (request_key request)) page
    × (new_store sample_json world.load_io (store_of w').content ≡ ok s)
    × All (OfOtherKey (request_key request)) (pending_records egress_page_size s)
acknowledged_stays_example =
    acknowledged_stays sample_eth sample_ed sample_crc sample_json sample_kaitai
      world.hex_to_address inputs write world.load_io request gateway worker sound refl
      (refl, refl, refl, refl) refl worker-IsRunning one_row-HasHistory ack_answer

gateway_tracks_settlements_example :
    (w' : Worker) × ((serve_all sample_eth sample_ed sample_crc sample_json sample_kaitai
        world.hex_to_address inputs gateway).0.worker
      ≡ some w')
    × IsTracked sample_eth sample_ed sample_crc sample_json chain time 0 worker.receiving w'
gateway_tracks_settlements_example =
    gateway_tracks_settlements sample_eth sample_ed sample_crc sample_json chain time 0
      worker.receiving sample_kaitai world.hex_to_address inputs gateway worker chain-IsChain
      (
        tt,
        ((7, chain_node-IsHonest chain chain-IsChain time 7 (omega arith)), (tt, (tt, (tt, tt)))),
      )
      refl
      (record {
        ready = record { seeded = refl; counted = omega arith };
        blocks = 0;
        moved = refl;
        had = [];
        served = none_called;
        is_read = refl;
        recorded = λ e. tt;
      })

gateway_submits_each_once_example :
    flatten (
      given_out
        (serve_all sample_eth sample_ed sample_crc sample_json sample_kaitai world.hex_to_address
          inputs gateway).1
      ++ batches_of
          (cleanup
            (serve_all sample_eth sample_ed sample_crc sample_json sample_kaitai
              world.hex_to_address inputs gateway).0).1)
    ≡ intents_of_inputs sample_eth sample_ed sample_crc sample_json sample_kaitai
        world.hex_to_address gateway.registry inputs
gateway_submits_each_once_example =
    gateway_submits_each_once sample_eth sample_ed sample_crc sample_json sample_kaitai
      world.hex_to_address inputs gateway idle_submitter refl refl

-- The file that this gateway leaves, and the start over it.
abbrev world_again : World
world_again = record world { file = λ path. one_row.content }

abbrev again : Server
again = record started { receipts = some first_receipts }

reload : new_store sample_json world.load_io one_row.content ≡ ok one_row
unfolding append write_line_locked write_out marshal lookup
reload =
    let (s, e, v) =
      run-IsExact sample_json (appends write paid ∷ []) fresh ((refl, paid-IsStorable, refl), tt)
        (fresh-IsExact sample_json) in
    let same : s ≡ one_row = eq_of_ok (sym e ∙ one_row_runs) in
    restart_loads sample_json world.load_io one_row one_row.table (refl, refl, refl, refl)
      (subst (IsExact sample_json) same v).loads

receipts_run : start_receipt_watcher online world_again sample_json ≡ done first_receipts
unfolding start_receipt_watcher void_protocol_oss.Base.Text.hex_decode
    void_protocol_oss.Receipt.Processor.new_processor
    void_protocol_oss.Chain.Watcher.Run.new_watcher
receipts_run = ap (λ x. and_then (loaded x) (opened_receipts online world_again sample_json)) reload

abbrev with_receipts : Receipts → Server
with_receipts r = record started { receipts = some r }

again_run : start online world_again sample_ed sample_json ≡ done again
unfolding start void_protocol_oss.Registry.load_flat_sat_demo_key
    void_protocol_oss.Base.Text.hex_decode lookup void_protocol_oss.Registry.initialize
    void_protocol_oss.Server.maybe_init_chain void_protocol_oss.Chain.Client.new_escrow_client
    void_protocol_oss.Chain.Submitter.new_buffered_submitter
again_run = ap (λ x. and_then x (λ r. done (with_receipts r))) receipts_run

left_store :
    (serve_all sample_eth sample_ed sample_crc sample_json sample_kaitai world.hex_to_address
      (requests get_pending ∷ timer_fires ∷ [])
      gateway).0.worker
    ≡ some worker
unfolding serve_all step route
left_store = refl

restarted_gateway_continues_example :
    ((launch again).worker ≡ some (idle_worker first_receipts))
    × (first_receipts.egress_store ≡ first_receipts.processor.store)
    × (first_receipts.watcher.next_block ≡ 0)
    × Covers one_row.records one_row.records
    × IsRunning (idle_worker first_receipts)
    × HasHistory sample_json one_row
restarted_gateway_continues_example =
    restarted_gateway_continues online world_again sample_json sample_eth sample_ed sample_crc
      sample_kaitai world.hex_to_address (requests get_pending ∷ timer_fires ∷ []) gateway worker
      worker again first_receipts (tt, (tt, tt)) (refl, refl, refl, refl) refl refl worker-IsRunning
      one_row-HasHistory left_store refl again_run refl
