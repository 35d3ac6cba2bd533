-- ===== src/Chain/Client.antt =====
-- gateway/internal/core/chain/client.go: the settlement intent, its nonce, and the guarded call.
-- A `*big.Int` that is never negative is a natural number, an address is its bytes.
pub mod Embedded
use Prim.Native.Nat.{bit_or}
use void_protocol_oss.Base.{
  ℕ, ◌*◌, ◌/◌, ◌%◌, ◌^◌, ◌<◌, ◌≡◌, ◌==◌, ◌&&◌, if◌then◌else◌, Option, none, some, List, [], ◌∷◌,
  arith,
}
use void_protocol_oss.Base.Bytes.{Bytes}
use void_protocol_oss.Base.Bits.{bit_or_shift}

pub record SettlementIntent : Type 0 where
  pub sat_id : ℕ
  pub amount : ℕ
  pub asset_id : ℕ
  pub tx_nonce : ℕ
  pub wallet : Bytes

-- `nonce.Lsh(nonce, 64)` and `nonce.Or(nonce, epochTs)`.
unfoldable pub derive_tx_nonce : ℕ → ℕ → ℕ
derive_tx_nonce sat_id epoch_ts_ms = bit_or (sat_id * 2 ^ 64) epoch_ts_ms

-- For a uint32 sat_id and a uint64 epoch the nonce fits 96 bits, and both inputs can be read
-- back from it: the epoch from the low 64 bits, the sat_id from those above.
pub derive_tx_nonce_fields :
    (sat_id epoch_ts_ms : ℕ)
    → sat_id < 2 ^ 32
    → epoch_ts_ms < 2 ^ 64
    → (derive_tx_nonce sat_id epoch_ts_ms / 2 ^ 64 ≡ sat_id)
      × (derive_tx_nonce sat_id epoch_ts_ms % 2 ^ 64 ≡ epoch_ts_ms)
      × (derive_tx_nonce sat_id epoch_ts_ms < 2 ^ 96)
unfolding derive_tx_nonce
derive_tx_nonce_fields s e hs he =
    rw (bit_or_shift 64 s e he) (omega arith, omega arith, omega arith)

-- go-ethereum's calls at the construction of a client: a key from its hex text, and a transactor
-- for a key and a chain; none is an error.
pub record Keyring : Type 0 where
  pub hex_to_ecdsa : Bytes → Option Bytes
  pub new_keyed_transactor : Bytes → ℕ → Option Bytes

-- `strings.TrimPrefix(privKeyHex, "0x")`
abbrev pub trim_prefix_0x : Bytes → Bytes
trim_prefix_0x [] = []
trim_prefix_0x (a ∷ []) = a ∷ []
trim_prefix_0x (a ∷ b ∷ bs) = if (a == 48) && (b == 120) then bs else a ∷ b ∷ bs

-- `contract` is bound to the address; the backend is the node.
pub record EscrowClient : Type 0 where
  pub address : Bytes
  pub transactor : Bytes

pub data NewClient : Type 0 where
  client : EscrowClient → NewClient
  parse_failed transactor_failed : NewClient

module _ (keys : Keyring) (contract_addr : Bytes) (chain_id : ℕ) where
  abbrev pub with_transactor : Option Bytes → NewClient
  with_transactor none = transactor_failed
  with_transactor (some auth) = client (record { address = contract_addr; transactor = auth })

  abbrev pub with_private_key : Option Bytes → NewClient
  with_private_key none = parse_failed
  with_private_key (some key) = with_transactor (keys.new_keyed_transactor key chain_id)

  unfoldable pub new_escrow_client : Bytes → NewClient
  new_escrow_client priv_key_hex =
      with_private_key (keys.hex_to_ecdsa (trim_prefix_0x priv_key_hex))

-- The outcome of a call of the contract: the transaction's hash, or an error.
pub data Sent : Type 0 where
  sent : Bytes → Sent
  empty_batch transact_failed : Sent

-- `SettleBatch` over the contract binding, which is not the gateway's code.
unfoldable pub settle_batch : (List SettlementIntent → Option Bytes) → List SettlementIntent → Sent
settle_batch transact [] = empty_batch
settle_batch transact (i ∷ is) = elim (transact (i ∷ is)) [
  | none ↦ transact_failed
  | some hash ↦ sent hash
]
