-- ===== src/Server/Settlements.antt =====
-- The logs of the escrow contract, their events and the calls of Handle that succeed.
pub mod Polled
use void_protocol_oss.Base.{
  ℕ, zero, suc, ◌+◌, ◌-◌, ◌%◌, ◌^◌, ◌≤◌, ◌<◌, ◌≡◌, refl, sym, ap, ◌∙◌, inl, inr, true, false,
  Option, none, some, List, [], ◌∷◌, ◌++◌, length, length-drop, All, All-drop, drop, is_some,
  Bool-cases, eq_of_some, ◌==◌, if◌then◌else◌, arith,
}
use mathlib.Core.Path.{subst}
use void_protocol_oss.Base.Bytes.{Bytes, IsByte}
use void_protocol_oss.Base.Words.{be_value, be_value_bound}
use void_protocol_oss.Base.Dict.{bytes_Eq, lookup}
use void_protocol_oss.Wire.Crc.{Crc32}
use void_protocol_oss.Wire.Signature.{Ed25519}
use void_protocol_oss.Chain.Watcher.{SettlementEvent, Log, decode_topics, decode_settlement_created}
use void_protocol_oss.Receipt.Record.{Record, IsStorable, default_status, key_of}
use void_protocol_oss.Receipt.Json.{Json, newline}
use void_protocol_oss.Receipt.Store.{
  Store, StoreError, WriteIo, append, write_line_locked, write_out,
}
use void_protocol_oss.Receipt.Store.Lands.{Marshals, Writes, append_lands}
use void_protocol_oss.Receipt.Processor.{EthText, Processor, append_error, handle}
use void_protocol_oss.Receipt.Processor.Outcome.{key_of_event, receipt}
use void_protocol_oss.Receipt.Processor.Replay.{
  IsOnChain, receipt-IsStorable, replay_noop, handle_fresh,
}

-- A 32-byte word of the ABI.
abbrev pub IsWord : Bytes → Type 0
IsWord bs = (length bs ≡ 32) × All IsByte bs

-- A `SettlementCreated` log as a node reports it: three indexed words behind the event's own, one
-- word of data, and the number of its block.
pub record IsSettlementLog (l : Log) : Type 0 where
  pub event : Bytes
  pub sat : Bytes
  pub nonce : Bytes
  pub wallet : Bytes
  pub topics_are : l.topics ≡ event ∷ sat ∷ nonce ∷ wallet ∷ []
  pub sat_word : IsWord sat
  pub nonce_word : IsWord nonce
  pub data_word : IsWord l.data_bytes
  pub block_number_u64 : l.block_number < 2 ^ 64

-- Such a log is decoded, to values that fit their types on the chain.
pub decode-IsOnChain :
    (l : Log)
    → IsSettlementLog l
    → (ev : SettlementEvent) × (decode_settlement_created l ≡ some ev) × IsOnChain ev
unfolding decode_settlement_created
decode-IsOnChain l v =
    let size = v.data_word.0 in
    let sat_size = v.sat_word.0 in
    (
      record {
        sat_id = be_value (drop 28 v.sat);
        amount = be_value l.data_bytes;
        tx_nonce = be_value v.nonce;
        wallet = drop 12 v.wallet;
        tx_hash = l.tx_hash;
        block_number = l.block_number;
        block_time_sec = 0;
      },
      ap (λ ts. decode_topics ts l) v.topics_are ∙ rw size refl,
      record {
        sat_id_u32 = omega (
          arith,
          be_value_bound 4 (drop 28 v.sat) (omega (arith, sat_size, length-drop 28 v.sat))
              (All-drop IsByte 28 v.sat v.sat_word.1),
        );
        amount_u256 = omega (arith, be_value_bound 32 l.data_bytes size v.data_word.1);
        tx_nonce_u256 = omega (arith, be_value_bound 32 v.nonce v.nonce_word.0 v.nonce_word.1);
        block_number_u64 = v.block_number_u64;
      },
    )

-- Each write reaches the file whole and is synced.
pub record WritesAll (io : ℕ → WriteIo) : Type 0 where
  pub each : (n : ℕ) → Writes (io n)

-- A processor whose seed and sequence count fit, with an open store.
pub record IsReceiving (p : Processor) : Type 0 where
  pub seeded : length p.seed ≡ 32
  pub counted : p.seq_count < 2 ^ 14
  pub is_open : p.store.is_open ≡ true

module _ (json : Json) (marshals : Marshals json) (eth : EthText) (ed : Ed25519) (crc : Crc32) where
  -- Over an open store and writes that reach it, Handle has no error and leaves the store open.
  pub handle_lands :
      (w : WriteIo) (ev : SettlementEvent) (p : Processor)
      → Writes w
      → IsOnChain ev
      → IsReceiving p
      → (p' : Processor) × (handle eth ed crc json w ev p ≡ (p', none)) × IsReceiving p'
  handle_lands w ev p writes c v =
      elim (Bool-cases (is_some (lookup (key_of_event eth ed crc json ev) p.store.records))) [
        | inl x ↦ (p, replay_noop eth ed crc json w ev p x, v)
        | inr x ↦
            let r = receipt eth ed crc json ev p in
            let (still, good) =
              append_lands json marshals w writes r p.store v.is_open x
                (receipt-IsStorable eth ed crc json ev p c) in
            let p' : Processor = record p {
              store = (append json w r p.store).0;
              seq_count = (p.seq_count + 1) % 2 ^ 14;
            } in
            (
              p',
              handle_fresh eth ed crc json w ev p v.seeded v.counted x
                  ∙ ap (λ o. (p', append_error o)) good,
              record { seeded = v.seeded; counted = omega arith; is_open = still },
            )
      ]
