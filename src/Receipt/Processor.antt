-- ===== src/Receipt/Processor.antt =====
-- gateway/internal/core/receipt/processor.go: from a settlement event to a stored receipt.
-- `claim` is Handle up to the end of its critical section, `finish` the rest.
pub mod Outcome
pub mod Replay
pub mod Keys
use Prim.Native.Nat.{bit_and}
use void_protocol_oss.Base.{
  ℕ, ◌+◌, ◌*◌, ◌%◌, ◌^◌, ◌≤◌, ◌≡◌, Bool, true, false, Option, none, some, [], length, All, leb,
  ◌==◌, if◌then◌else◌,
}
use void_protocol_oss.Base.Bytes.{Bytes, IsByte}
use void_protocol_oss.Base.Text.{decimal, hex}
use void_protocol_oss.Chain.Watcher.{SettlementEvent}
use void_protocol_oss.Wire.Crc.{Crc32}
use void_protocol_oss.Receipt.Record.{Record, IsAscii}
use void_protocol_oss.Receipt.Json.{Json}
use void_protocol_oss.Receipt.Builder.{Inputs, build}
use void_protocol_oss.Wire.Signature.{Ed25519}
use void_protocol_oss.Receipt.Store.{Store, StoreError, duplicate, WriteIo, append, has}

-- The 32 bytes of a `common.Hash`.
abbrev pub IsHash : Bytes → Type 0
IsHash h = (length h ≡ 32) × All IsByte h

-- `common.Hash.Hex` and `common.Address.Hex` of go-ethereum: 66 and 42 characters of ASCII, and
-- one text for each hash.
pub record EthText : Type 0 where
  pub hash_hex : Bytes → Bytes
  pub address_hex : Bytes → Bytes
  pub hash_ascii : (h : Bytes) → IsAscii (hash_hex h)
  pub address_ascii : (a : Bytes) → IsAscii (address_hex a)
  pub hash_size : (h : Bytes) → length (hash_hex h) ≤ 66
  pub hash_injective : (h h' : Bytes) → IsHash h → IsHash h' → hash_hex h ≡ hash_hex h' → h ≡ h'
  pub address_size : (a : Bytes) → length (address_hex a) ≤ 42

abbrev pub seller_apid_100 : ℕ
seller_apid_100 = 100

abbrev pub asset_id_usdc : ℕ
asset_id_usdc = 1

pub record Processor : Type 0 where
  pub store : Store
  pub seller_apid : ℕ
  pub seed : Bytes
  pub seq_count : ℕ

pub data HandleError : Type 0 where
  build_failed : HandleError
  append_failed : StoreError → HandleError

-- None is the error for a nil store or an empty seed.
unfoldable pub new_processor : Option Store → ℕ → Bytes → Option Processor
new_processor none seller_apid seed = none
new_processor (some store) seller_apid seed =
    if length seed == 0
    then none
    else some (record { store = store; seller_apid = seller_apid; seed = seed; seq_count = 0 })

abbrev pub milliseconds : SettlementEvent → ℕ
milliseconds ev = ev.block_time_sec * 1000 % 2 ^ 64

abbrev pub inputs_of : SettlementEvent → ℕ → Processor → Inputs
inputs_of ev seq p = record {
  exec_time_ms = milliseconds ev;
  enc_tx_id = ev.tx_nonce % 2 ^ 64;
  enc_status = 1;
  apid = p.seller_apid;
  seq_count = seq;
  seed_ed25519 = p.seed;
}

-- `if err == ErrDuplicate { return nil }`, and the error otherwise.
abbrev pub append_error : Option StoreError → Option HandleError
append_error none = none
append_error (some duplicate) = none
append_error (some e) = some (append_failed e)

module _ (eth : EthText) where
  abbrev pub payment_id_of : SettlementEvent → Bytes
  payment_id_of ev = decimal ev.tx_nonce

  abbrev pub tx_hash_of : SettlementEvent → Bytes
  tx_hash_of ev = eth.hash_hex ev.tx_hash

  abbrev pub record_of : SettlementEvent → Bytes → Record
  record_of ev packet_c = record {
    payment_id = payment_id_of ev;
    settlement_tx_hash = tx_hash_of ev;
    sat_id = ev.sat_id;
    amount = decimal ev.amount;
    asset_id = asset_id_usdc;
    wallet = eth.address_hex ev.wallet;
    packet_c_hex = hex packet_c;
    block_number = ev.block_number;
    ts_ms = milliseconds ev;
    dispatch_status = [];
  }

  -- None is the return on a replay; otherwise the sequence count that the call has taken.
  unfoldable pub claim : SettlementEvent → Processor → Processor × Option ℕ
  claim ev p =
      if has (payment_id_of ev) (tx_hash_of ev) p.store
      then (p, none)
      else (record p { seq_count = bit_and ((p.seq_count + 1) % 2 ^ 16) 0x3FFF }, some p.seq_count)

  module _ (ed : Ed25519) (crc : Crc32) (json : Json) (io : WriteIo) (ev : SettlementEvent) where
    abbrev pub store_frame : Option Bytes → Processor → Processor × Option HandleError
    store_frame none p = (p, some build_failed)
    store_frame (some packet_c) p =
        let r = append json io (record_of ev packet_c) p.store in
        (record p { store = r.0 }, append_error r.1)

    abbrev pub finish : Processor × Option ℕ → Processor × Option HandleError
    finish (p, none) = (p, none)
    finish (p, some seq) = store_frame (build ed crc (inputs_of ev seq p)) p

    unfoldable pub handle : Processor → Processor × Option HandleError
    handle p = finish (claim ev p)
