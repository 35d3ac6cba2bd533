-- ===== src/Server/Tests/Settling.antt =====
-- The settlements of a chain, from a node that answers to the rows of the store.
use void_protocol_oss.Base.{
  ℕ, ◌+◌, ◌-◌, ◌≡◌, refl, inl, inr, [], ◌∷◌, ◌++◌, All, replicate, ◌==◌, Bool-cases, arith,
}
use void_protocol_oss.Wire.Samples.{sample_ed, sample_crc}
use void_protocol_oss.Receipt.SampleJson.{sample_json, sample_json-Marshals}
use void_protocol_oss.Receipt.SampleEth.{sample_eth}
use void_protocol_oss.Chain.Watcher.{Watcher}
use void_protocol_oss.Chain.Watcher.Run.{going, run}
use void_protocol_oss.Chain.Watcher.Run.Blocks.{logs_in}
use void_protocol_oss.Chain.Watcher.Run.Live.{AreAnswering, chain_node-IsAnswering}
use void_protocol_oss.Server.{Receiving, on_settlement}
use void_protocol_oss.Server.Settlements.{IsSettlementLog, WritesAll}
use void_protocol_oss.Server.Delivered.{IsEscrowChain, IsSettled, settlements_get_receipts}
use void_protocol_oss.Server.Tests.{
  settlement_log, chain, chain-IsChain, time, rounds, receiving, good_write,
}

settlement_log-IsSettlementLog : IsSettlementLog settlement_log
settlement_log-IsSettlementLog = record {
  event = replicate 32 0;
  sat = replicate 31 0 ++ (6 ∷ []);
  nonce = replicate 31 0 ++ (42 ∷ []);
  wallet = replicate 12 0 ++ replicate 20 1;
  topics_are = refl;
  sat_word = (refl, ground arith);
  nonce_word = (refl, ground arith);
  data_word = (refl, ground arith);
  block_number_u64 = omega arith;
}

pub chain-IsEscrowChain : IsEscrowChain chain
chain-IsEscrowChain = record {
  placed = chain-IsChain;
  settles = λ b. elim (Bool-cases (b == 5)) [
    | inl e ↦ rw e (settlement_log-IsSettlementLog, tt)
    | inr e ↦ rw e tt
  ];
}

pub answering : AreAnswering chain time rounds (3 ∷ 7 ∷ [])
answering = (
  chain_node-IsAnswering chain chain-IsChain time 3 (omega arith),
  refl,
  (chain_node-IsAnswering chain chain-IsChain time 7 (omega arith), refl, tt),
)

pub good_write-WritesAll : WritesAll good_write
good_write-WritesAll = record { each = λ n. record { whole = refl; synced = refl } }

settlements_get_receipts_example :
    (w' : Watcher) × (r' : Receiving) × (run
        (on_settlement sample_eth sample_ed sample_crc sample_json good_write)
        rounds
        (record { next_block = 0 })
        receiving
      ≡ (w', r', going))
    × (r'.errors ≡ [])
    × All
        (λ (h : ℕ).
          All
            (IsSettled sample_eth sample_ed sample_crc sample_json good_write r'.processor.store)
            (logs_in chain 0 (h + 1 - 0)))
        (3 ∷ 7 ∷ [])
settlements_get_receipts_example =
    settlements_get_receipts sample_eth sample_ed sample_crc sample_json good_write
      sample_json-Marshals good_write-WritesAll chain time rounds (3 ∷ 7 ∷ [])
      (record { next_block = 0 }) receiving chain-IsEscrowChain answering
      (record { seeded = refl; counted = omega arith; is_open = refl }) refl
