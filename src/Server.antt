-- ===== src/Server.antt =====
-- gateway/cmd/server/main.go: how the parts are put together at the start.
pub mod Recorded
pub mod Payments
pub mod Settlements
pub mod Delivered
pub mod Gateway
mod Tests
pub mod Started
use void_protocol_oss.Base.{
  ℕ, ◌+◌, Bool, true, false, ◌&&◌, Option, none, some, List, [], ◌∷◌, if◌then◌else◌,
}
use void_protocol_oss.Base.Bytes.{Bytes, codes, bytes_eq}
use void_protocol_oss.Base.Ints.{ℤ, pos}
use void_protocol_oss.Base.Text.{hex_decode}
use void_protocol_oss.Wire.Crc.{Crc32}
use void_protocol_oss.Wire.Signature.{Ed25519}
use void_protocol_oss.Registry.{Registry, DemoKeyError, initialize, load_flat_sat_demo_key}
use void_protocol_oss.Chain.Client.{
  Keyring, EscrowClient, NewClient, client, parse_failed, transactor_failed, new_escrow_client,
}
use void_protocol_oss.Chain.Submitter.{
  BufferedSubmitter, default_max_batch, default_interval, new_buffered_submitter,
}
use void_protocol_oss.Chain.Watcher.{SettlementEvent, Watcher}
use void_protocol_oss.Chain.Watcher.Run.{default_watch_interval, new_watcher}
use void_protocol_oss.Receipt.Json.{Json}
use void_protocol_oss.Receipt.Store.{Store, LoadIo, Loaded, ok, err, WriteIo, new_store}
use void_protocol_oss.Receipt.Processor.{
  EthText, Processor, HandleError, seller_apid_100, new_processor, handle,
}

abbrev pub default_eth_rpc_url : Bytes
default_eth_rpc_url = codes "http://127.0.0.1:8545"

abbrev pub anvil_acct0_priv : Bytes
anvil_acct0_priv = codes "ac0974bec39a17e36ba4a6b4d238ff944bacb478cbed5efcae784d7bf4f2ff80"

abbrev pub demo_seller_seed_hex : Bytes
demo_seller_seed_hex = codes "bc1df4fa6e3d7048992f14e655060cbb2190bded9002524c06e7cbb163df15fb"

abbrev pub default_receipts_path : Bytes
default_receipts_path = codes "gateway/data/receipts.json"

-- `if value == "" { value = fallback }`
abbrev pub or_default : Bytes → Bytes → Bytes
or_default [] fallback = fallback
or_default (b ∷ bs) fallback = b ∷ bs

-- The environment's texts, empty where a variable is not set.
pub record Env : Type 0 where
  pub escrow_address : Bytes
  pub eth_rpc_url : Bytes
  pub gateway_private_key : Bytes
  pub receipts_path : Bytes
  pub receipts_seller_seed : Bytes

-- What go-ethereum and the operating system answer at the start: none and false are errors.
-- `file` is what a path holds.
pub record World : Type 0 where
  pub dials : Bytes → Bool
  pub chain_id : Bytes → Option ℕ
  pub hex_to_address : Bytes → Bytes
  pub keys : Keyring
  pub makes_directory : Bytes → Bool
  pub file : Bytes → Bytes
  pub load_io : LoadIo
  pub has_event : Bool

pub record ChainDeps : Type 0 where
  pub rpc_url : Bytes
  pub chain_id : ℕ
  pub addr : Bytes
  pub priv_key : Bytes
  pub escrow : EscrowClient
  pub submitter : BufferedSubmitter

pub data StartError : Type 0 where
  demo_key_failed : DemoKeyError → StartError
  dial_failed chain_id_failed escrow_failed : StartError
  directory_failed store_failed seed_failed processor_failed watcher_failed : StartError

pub data Outcome (A : Type 0) : Type 0 where
  done : A → Outcome A
  fatal : StartError → Outcome A

abbrev pub and_then : {A B : Type 0} → Outcome A → (A → Outcome B) → Outcome B
and_then (done a) f = f a
and_then (fatal e) f = fatal e

abbrev pub require : Bool → StartError → Outcome (Unit {0})
require true e = done tt
require false e = fatal e

abbrev pub given : {A : Type 0} → Option A → StartError → Outcome A
given (some a) e = done a
given none e = fatal e

abbrev pub built : NewClient → Outcome EscrowClient
built (client c) = done c
built parse_failed = fatal escrow_failed
built transactor_failed = fatal escrow_failed

abbrev pub loaded : Loaded Store → Outcome Store
loaded (ok s) = done s
loaded (err e) = fatal store_failed

-- What the goroutine of the receipts works with; the store is also that of the egress endpoints.
pub record Receipts : Type 0 where
  pub egress_store : Store
  pub processor : Processor
  pub watcher : Watcher
  pub interval : ℕ

pub record Server : Type 0 where
  pub registry : Registry
  pub submitter : Option BufferedSubmitter
  pub receipts : Option Receipts

module _ (env : Env) (world : World) where
  abbrev pub init_chain : Bytes → Bytes → Outcome ChainDeps
  init_chain rpc_url priv_key = and_then (require (world.dials rpc_url) dial_failed) λ _.
      and_then (given (world.chain_id rpc_url) chain_id_failed) λ chain_id.
        let addr = world.hex_to_address env.escrow_address in
        and_then (built (new_escrow_client world.keys addr chain_id priv_key)) λ escrow.
          done (record {
            rpc_url = rpc_url;
            chain_id = chain_id;
            addr = addr;
            priv_key = priv_key;
            escrow = escrow;
            submitter = new_buffered_submitter default_max_batch default_interval;
          })

  -- None where the address of the contract is not set.
  unfoldable pub maybe_init_chain : Outcome (Option ChainDeps)
  maybe_init_chain =
      if bytes_eq env.escrow_address []
      then done none
      else and_then
          (init_chain (or_default env.eth_rpc_url default_eth_rpc_url)
            (or_default env.gateway_private_key anvil_acct0_priv))
          (λ deps. done (some deps))

  unfoldable pub start_receipt_watcher : Json → Outcome Receipts
  start_receipt_watcher json =
      let path = or_default env.receipts_path default_receipts_path in
      and_then (require (world.makes_directory path) directory_failed) λ _.
        and_then (loaded (new_store json world.load_io (world.file path))) λ store.
          and_then
            (given (hex_decode (or_default env.receipts_seller_seed demo_seller_seed_hex))
              seed_failed)
            λ seed.
              and_then (given (new_processor (some store) seller_apid_100 seed) processor_failed)
                λ processor.
                  and_then
                    (given (new_watcher world.has_event 0 (pos default_watch_interval))
                      watcher_failed)
                    λ (watcher, interval). done (record {
                      egress_store = store;
                      processor = processor;
                      watcher = watcher;
                      interval = interval;
                    })

  abbrev pub wired : Registry → Json → Option ChainDeps → Outcome Server
  wired db json none = done (record { registry = db; submitter = none; receipts = none })
  wired db json (some deps) = and_then (start_receipt_watcher json) λ receipts.
      done (record { registry = db; submitter = some deps.submitter; receipts = some receipts })

  abbrev pub with_registry : Json → Registry × Option DemoKeyError → Outcome Server
  with_registry json (db, some e) = fatal (demo_key_failed e)
  with_registry json (db, none) = and_then maybe_init_chain (wired db json)

  -- `main` up to the router, where a fatal error ends the program.
  unfoldable pub start : Ed25519 → Json → Outcome Server
  start ed json =
      with_registry json (load_flat_sat_demo_key ed demo_seller_seed_hex (initialize []))

-- The closure that `startReceiptWatcher` hands to the watcher's loop: an error is logged, and the
-- loop goes on. `errors` is what it has logged, `calls` how many calls it has had.
pub record Receiving : Type 0 where
  pub processor : Processor
  pub calls : ℕ
  pub errors : List HandleError

module _ (eth : EthText) (ed : Ed25519) (crc : Crc32) (json : Json) (io : ℕ → WriteIo) where
  abbrev pub received : Receiving → Processor × Option HandleError → Receiving
  received r (p, none) = record { processor = p; calls = r.calls + 1; errors = r.errors }
  received r (p, some e) = record { processor = p; calls = r.calls + 1; errors = e ∷ r.errors }

  unfoldable pub on_settlement : Receiving → SettlementEvent → Receiving
  on_settlement r ev = received r (handle eth ed crc json (io r.calls) ev r.processor)
