-- ===== src/Server/Tests.antt =====
-- A start of the gateway, a payment and a settlement, and the theorems at concrete inputs.
mod Settling
mod Running
mod Vectors
use void_protocol_oss.Base.{
  ℕ, ◌+◌, ◌-◌, ◌*◌, ◌≡◌, refl, Bool, true, false, Option, some, none, List, [], ◌∷◌, ◌++◌, length,
  take, slice, replicate, All, is_some, ◌==◌, Bool-cases, inl, inr, if◌then◌else◌, arith,
}
use void_protocol_oss.Base.Bytes.{Bytes, codes}
use void_protocol_oss.Base.Words.{le_bytes}
use void_protocol_oss.Wire.Samples.{sample_ed, sample_crc}
use void_protocol_oss.Protocol.Samples.{sample_kaitai}
use void_protocol_oss.Protocol.Fields.{ccsds_at}
use void_protocol_oss.Protocol.Payments.Layout.{packet_b_body_fields}
use void_protocol_oss.Protocol.Packet.{VoidProtocol, ccsds_tier, payment}
use void_protocol_oss.Receipt.SampleJson.{sample_json}
use void_protocol_oss.Receipt.SampleEth.{sample_eth}
use void_protocol_oss.Registry.{
  sat_a, sat_b, flat_sat_demo_sat_id, initialize, load_flat_sat_demo_key,
}
use void_protocol_oss.Chain.Watcher.{
  SettlementEvent, Log, Watcher, poll, collect, decode_settlement_created,
}
use void_protocol_oss.Chain.Watcher.Run.{Round, going, run}
use void_protocol_oss.Chain.Watcher.Run.Blocks.{IsChain, chain_node, chain_node-IsHonest}
use void_protocol_oss.Chain.Watcher.Run.Whole.{AreHonest, IsHandled, run_handles_each_once}
use void_protocol_oss.Receipt.Store.{WriteIo}
use void_protocol_oss.Server.{Receiving, on_settlement}
use void_protocol_oss.Server.Recorded.{IsRecorded, run-IsRecorded}
use void_protocol_oss.Ingest.{ingest_packet}
use mathlib.Core.List.{flatten}
use void_protocol_oss.Chain.Submitter.{BufferedSubmitter}
use void_protocol_oss.Server.Payments.{serve, intents, serve-intents}
use void_protocol_oss.Server.{Env, World, Server, done, start}
use void_protocol_oss.Server.Started.{demo_record, demo_seed, start_offline}

abbrev pub offline : Env
offline = record {
  escrow_address = [];
  eth_rpc_url = [];
  gateway_private_key = [];
  receipts_path = [];
  receipts_seller_seed = [];
}

abbrev pub online : Env
online = record offline { escrow_address = codes "0x1" }

abbrev pub world : World
world = record {
  dials = λ url. true;
  chain_id = λ url. some 31337;
  hex_to_address = λ b. b;
  keys = record { hex_to_ecdsa = λ hex. some hex; new_keyed_transactor = λ key id. some key };
  makes_directory = λ path. true;
  file = λ path. [];
  load_io = record { opened = true; rewound = true; scanned = true; seeked_end = true };
  has_event = true;
}

start_offline_example :
    (s : Server) × (start offline world sample_ed sample_json ≡ done s)
    × (s.receipts ≡ none)
    × ((raw : Bytes)
        → (ingest_packet sample_kaitai sample_ed sample_crc world.hex_to_address s.registry
            (is_some s.submitter)
            (some raw)).1
          ≡ none)
start_offline_example =
    start_offline offline world sample_ed sample_json sample_kaitai sample_crc refl

abbrev pub started : Server
started = record {
  registry = (100, sat_a) ∷ (101, sat_b) ∷ (flat_sat_demo_sat_id, demo_record sample_ed) ∷ [];
  submitter =
      some (record { max_batch = 10; interval = 5000; buf = []; timer = false; closed = false });
  receipts = some (record {
    egress_store = record {
      content = [];
      is_open = true;
      table = record { records = []; order = [] };
    };
    processor = record {
      store = record { content = []; is_open = true; table = record { records = []; order = [] } };
      seller_apid = 100;
      seed = demo_seed;
      seq_count = 0;
    };
    watcher = record { next_block = 0 };
    interval = 2000000000;
  });
}

pub start_run : start online world sample_ed sample_json ≡ done started
unfolding start load_flat_sat_demo_key void_protocol_oss.Base.Text.hex_decode
    void_protocol_oss.Base.Dict.lookup initialize void_protocol_oss.Server.maybe_init_chain
    void_protocol_oss.Chain.Client.new_escrow_client void_protocol_oss.Server.start_receipt_watcher
    void_protocol_oss.Receipt.Store.new_store void_protocol_oss.Receipt.Processor.new_processor
    void_protocol_oss.Chain.Watcher.Run.new_watcher
    void_protocol_oss.Chain.Submitter.new_buffered_submitter
start_run = refl

-- A payment of the demo satellite, signed over its first 112 bytes.
abbrev pub demo_frame : Bytes
demo_frame =
    (0 ∷ 7 ∷ 192 ∷ 5 ∷ 0 ∷ 177 ∷ [])
    ++ replicate 2 0
    ++ le_bytes 8 1700
    ++ replicate 24 0
    ++ replicate 62 1
    ++ replicate 2 0
    ++ le_bytes 4 flat_sat_demo_sat_id
    ++ replicate 4 0
    ++ (112 ∷ replicate 63 7)
    ++ replicate 8 0

abbrev demo_parts : VoidProtocol
demo_parts = record {
  is_snlp = false;
  routing_header = ccsds_tier (ccsds_at 0 demo_frame);
  raw_body = slice 6 178 demo_frame;
  body = payment (packet_b_body_fields (slice 6 178 demo_frame));
}

-- A settlement in block 5 of a chain that ends at block 7.
abbrev pub settlement_log : Log
settlement_log = record {
  topics =
      replicate 32 0
      ∷ (replicate 31 0 ++ (6 ∷ []))
      ∷ (replicate 31 0 ++ (42 ∷ []))
      ∷ (replicate 12 0 ++ replicate 20 1)
      ∷ [];
  data_bytes = replicate 31 0 ++ (9 ∷ []);
  tx_hash = replicate 32 2;
  block_number = 5;
}

abbrev pub chain : ℕ → List Log
chain n = if n == 5 then settlement_log ∷ [] else []

pub chain-IsChain : IsChain chain
chain-IsChain = record {
  placed =
      λ n. elim (Bool-cases (n == 5)) [ inl b ↦ rw b (ground (arith, b), tt) | inr b ↦ rw b tt ];
}

abbrev pub time : ℕ → ℕ
time n = n * 12

abbrev pub rounds : List Round
rounds =
    record { client = chain_node chain chain-IsChain time 3; is_done = false }
    ∷ record { client = chain_node chain chain-IsChain time 7; is_done = false }
    ∷ []

abbrev pub receiving : Receiving
receiving = record {
  processor = record {
    store = record { content = []; is_open = true; table = record { records = []; order = [] } };
    seller_apid = 100;
    seed = demo_seed;
    seq_count = 0;
  };
  calls = 0;
  errors = [];
}

abbrev pub good_write : ℕ → WriteIo
good_write n = record { stops_after = none; synced = true }

abbrev pub settlement : SettlementEvent
settlement = record {
  sat_id = 6;
  amount = 9;
  tx_nonce = 42;
  wallet = replicate 20 1;
  tx_hash = replicate 32 2;
  block_number = 5;
  block_time_sec = 60;
}

abbrev after : Receiving
after = on_settlement sample_eth sample_ed sample_crc sample_json good_write receiving settlement

settlement_run :
    run
      (on_settlement sample_eth sample_ed sample_crc sample_json good_write)
      rounds
      (record { next_block = 0 })
      receiving
    ≡ (record { next_block = 6 }, after, going)
unfolding run poll collect decode_settlement_created
settlement_run = refl

honest : AreHonest chain time rounds (3 ∷ 7 ∷ [])
honest = (
  chain_node-IsHonest chain chain-IsChain time 3 (omega arith),
  (chain_node-IsHonest chain chain-IsChain time 7 (omega arith), tt),
)

run_handles_each_once_example :
    IsHandled chain time
      (on_settlement sample_eth sample_ed sample_crc sample_json good_write)
      (3 ∷ 7 ∷ [])
      (record { next_block = 0 })
      receiving
      (record { next_block = 6 })
      after
run_handles_each_once_example =
    run_handles_each_once chain time
      (on_settlement sample_eth sample_ed sample_crc sample_json good_write) rounds (3 ∷ 7 ∷ [])
      (record { next_block = 0 }) (record { next_block = 6 }) receiving after chain-IsChain honest
      settlement_run

abbrev pub idle_submitter : BufferedSubmitter
idle_submitter = record { max_batch = 2; interval = 5000; buf = []; timer = false; closed = false }
