-- ===== src/Egress.antt =====
-- gateway/internal/api/handlers/egress.go: the two endpoints of the bouncer. The framework parses
-- the request's JSON; none is a body that it refuses. `EgressStore` is nil where the store is none.
pub mod Drain
pub mod Answers
pub mod Emptied
use void_protocol_oss.Base.{ℕ, Bool, true, false, ◌||◌, Option, none, some, List, [], if◌then◌else◌}
use void_protocol_oss.Base.Bytes.{Bytes, bytes_eq}
use void_protocol_oss.Receipt.Record.{Record}
use void_protocol_oss.Receipt.Json.{Json}
use void_protocol_oss.Receipt.Store.{
  Store, StoreError, unknown, WriteIo, mark_dispatched, pending_records,
}

abbrev pub egress_page_size : ℕ
egress_page_size = 10

pub data Body : Type 0 where
  receipts : List Record → Body
  not_configured invalid_json keys_required unknown_key acknowledged : Body
  store_error : StoreError → Body

pub record Response : Type 0 where
  pub status : ℕ
  pub body : Body

abbrev pub respond : ℕ → Body → Response
respond status body = record { status = status; body = body }

pub record AckRequest : Type 0 where
  pub payment_id : Bytes
  pub settlement_tx_hash : Bytes

unfoldable pub handle_egress_pending : Option Store → Response
handle_egress_pending none = respond 503 not_configured
handle_egress_pending (some s) = respond 200 (receipts (pending_records egress_page_size s))

-- `err == receipt.ErrUnknown`
abbrev pub is_unknown : StoreError → Bool
is_unknown unknown = true
is_unknown e = false

-- After the call of MarkDispatched.
abbrev pub answer_ack : Store × Option StoreError → Option Store × Response
answer_ack (s, none) = (some s, respond 200 acknowledged)
answer_ack (s, some e) =
    (some s, if is_unknown e then respond 404 unknown_key else respond 500 (store_error e))

module _ (json : Json) (io : WriteIo) where
  abbrev pub ack_bound : Option AckRequest → Store → Option Store × Response
  ack_bound none s = (some s, respond 400 invalid_json)
  ack_bound (some req) s =
      if bytes_eq req.payment_id [] || bytes_eq req.settlement_tx_hash []
      then (some s, respond 400 keys_required)
      else answer_ack (mark_dispatched json io req.payment_id req.settlement_tx_hash s)

  unfoldable pub handle_egress_ack : Option AckRequest → Option Store → Option Store × Response
  handle_egress_ack req none = (none, respond 503 not_configured)
  handle_egress_ack req (some s) = ack_bound req s
