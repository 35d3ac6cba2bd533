-- ===== src/Receipt/Record.antt =====
-- The JSONL row of gateway/internal/core/receipt/store.go, its status values and its key.
-- `ts_ms` is the bit pattern of the int64.
use void_protocol_oss.Base.{ℕ, ◌+◌, ◌^◌, ◌≤◌, ◌<◌, [], ◌∷◌, ◌++◌, length, All, if◌then◌else◌}
use void_protocol_oss.Base.Bytes.{Bytes, codes, bytes_eq}

pub record Record : Type 0 where
  pub payment_id : Bytes
  pub settlement_tx_hash : Bytes
  pub sat_id : ℕ
  pub amount : Bytes
  pub asset_id : ℕ
  pub wallet : Bytes
  pub packet_c_hex : Bytes
  pub block_number : ℕ
  pub ts_ms : ℕ
  pub dispatch_status : Bytes

abbrev pub status_pending : Bytes
status_pending = codes "PENDING"

abbrev pub status_dispatched : Bytes
status_dispatched = codes "DISPATCHED"

abbrev pub bar : ℕ
bar = b'|'

unfoldable pub dedup_key : Bytes → Bytes → Bytes
dedup_key payment_id tx_hash = payment_id ++ (bar ∷ tx_hash)

abbrev pub key_of : Record → Bytes
key_of r = dedup_key r.payment_id r.settlement_tx_hash

-- `if rec.DispatchStatus == "" { rec.DispatchStatus = StatusPending }`
unfoldable pub default_status : Record → Record
default_status r =
    if bytes_eq r.dispatch_status [] then record r { dispatch_status = status_pending } else r

-- The values of the Go types: integers in their width, strings of ASCII bytes.
abbrev pub IsAscii : Bytes → Type 0
IsAscii = All (λ b. b < 128)

-- The bytes in the strings, the status apart.
abbrev pub text_size : Record → ℕ
text_size r =
    length r.payment_id
    + length r.settlement_tx_hash
    + length r.amount
    + length r.wallet
    + length r.packet_c_hex

-- A row of ASCII text whose line is far below the scanner's limit of 2 ^ 20 bytes.
pub record IsStorable (r : Record) : Type 0 where
  pub payment_id_ascii : IsAscii r.payment_id
  pub tx_hash_ascii : IsAscii r.settlement_tx_hash
  pub amount_ascii : IsAscii r.amount
  pub wallet_ascii : IsAscii r.wallet
  pub packet_c_hex_ascii : IsAscii r.packet_c_hex
  pub status_ascii : IsAscii r.dispatch_status
  pub sat_id_u32 : r.sat_id < 2 ^ 32
  pub asset_id_u16 : r.asset_id < 2 ^ 16
  pub block_number_u64 : r.block_number < 2 ^ 64
  pub ts_ms_i64 : r.ts_ms < 2 ^ 64
  pub text_fits : text_size r ≤ 100000
  pub status_fits : length r.dispatch_status ≤ 10
