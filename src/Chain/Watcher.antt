-- ===== src/Chain/Watcher.antt =====
-- gateway/internal/core/chain/watcher.go: the settlement event, its decoding, and one poll.
pub mod Cursor
pub mod Run
use void_protocol_oss.Base.{
  ℕ, ◌+◌, ◌%◌, ◌^◌, ◌≤◌, ◌≡◌, Bool, true, false, Option, none, some, List, [], ◌∷◌, ◌++◌, length,
  drop, All, ltb, leb, ◌==◌, if◌then◌else◌,
}
use void_protocol_oss.Base.Bytes.{Bytes}
use void_protocol_oss.Base.Words.{be_value}

-- `Amount` and `TxNonce` are uint256 values, the hash and the address are bytes.
pub record SettlementEvent : Type 0 where
  pub sat_id : ℕ
  pub amount : ℕ
  pub tx_nonce : ℕ
  pub wallet : Bytes
  pub tx_hash : Bytes
  pub block_number : ℕ
  pub block_time_sec : ℕ

-- The parts of go-ethereum's `types.Log` that are read; a topic has 32 bytes.
pub record Log : Type 0 where
  pub topics : List Bytes
  pub data_bytes : Bytes
  pub tx_hash : Bytes
  pub block_number : ℕ

-- What the node answers in one poll; none is an error. FilterLogs returns logs of the range.
pub record EventFilterer : Type 0 where
  pub block_number : Option ℕ
  pub filter_logs : ℕ → ℕ → Option (List Log)
  pub header_time : ℕ → Option ℕ
  pub in_range :
      (from to : ℕ) (logs : List Log)
      → filter_logs from to ≡ some logs
      → All (λ (l : Log). (from ≤ l.block_number) × (l.block_number ≤ to)) logs

pub data PollError : Type 0 where
  block_number_failed filter_failed decode_failed header_failed : PollError

-- Only the cursor changes; the interval and the contract are fixed.
pub record Watcher : Type 0 where
  pub next_block : ℕ

-- An address is the last 20 of a topic's 32 bytes, the satellite id the last 4.
abbrev pub decode_topics : List Bytes → Log → Option SettlementEvent
decode_topics (_ ∷ sat ∷ nonce ∷ wallet ∷ []) l =
    if length l.data_bytes == 32
    then some (record {
      sat_id = be_value (drop 28 sat);
      amount = be_value l.data_bytes;
      tx_nonce = be_value nonce;
      wallet = drop 12 wallet;
      tx_hash = l.tx_hash;
      block_number = l.block_number;
      block_time_sec = 0;
    })
    else none
decode_topics ts l = none

unfoldable pub decode_settlement_created : Log → Option SettlementEvent
decode_settlement_created l = decode_topics l.topics l

pub record Polled : Type 0 where
  pub events : List SettlementEvent
  pub highest : ℕ
  pub error : Option PollError

module _ (client : EventFilterer) (w : Watcher) where
  -- The time of the event's block, or none if the node does not answer.
  abbrev pub with_time : SettlementEvent → Option ℕ → Option SettlementEvent
  with_time ev none = none
  with_time ev (some time) = some (record ev { block_time_sec = time })

  abbrev pub stamped : SettlementEvent → Option SettlementEvent
  stamped ev =
      if leb w.next_block ev.block_number
      then with_time ev (client.header_time ev.block_number)
      else some ev

  -- The loop over the logs, with the events so far and the highest block seen.
  unfoldable pub collect : List Log → List SettlementEvent → ℕ → Polled
  collect [] events highest = record { events = events; highest = highest; error = none }
  collect (l ∷ ls) events highest = elim (decode_settlement_created l) [
    | none ↦ record { events = events; highest = highest; error = some decode_failed }
    | some ev ↦ elim (stamped ev) [
      | none ↦ record { events = events; highest = highest; error = some header_failed }
      | some ev' ↦
          collect ls (events ++ (ev' ∷ []))
            (if ltb highest ev'.block_number then ev'.block_number else highest)
    ]
  ]

  -- The cursor moves only where the whole loop has run.
  abbrev pub advance : Polled → Watcher × List SettlementEvent × Option PollError
  advance p = elim p.error [
    | none ↦ (record { next_block = (p.highest + 1) % 2 ^ 64 }, p.events, none)
    | some e ↦ (w, p.events, some e)
  ]

  abbrev pub poll_logs : Option (List Log) → Watcher × List SettlementEvent × Option PollError
  poll_logs none = (w, [], some filter_failed)
  poll_logs (some []) = (w, [], none)
  poll_logs (some (l ∷ ls)) = advance (collect (l ∷ ls) [] w.next_block)

  abbrev pub poll_head : Option ℕ → Watcher × List SettlementEvent × Option PollError
  poll_head none = (w, [], some block_number_failed)
  poll_head (some head) =
      if ltb head w.next_block
      then (w, [], none)
      else poll_logs (client.filter_logs w.next_block head)

  unfoldable pub poll : Watcher × List SettlementEvent × Option PollError
  poll = poll_head client.block_number
