-- ===== src/Server/Gateway/Tracked.antt =====
-- The settlements of a chain, while the gateway's steps interleave.
pub mod Steps
use void_protocol_oss.Base.{
  ℕ, zero, suc, ◌+◌, ◌≡◌, refl, sym, ap, ◌∙◌, inl, inr, Bool, true, false, ◌||◌, Option, none, some,
  List, [], ◌∷◌, ◌++◌, All, All-append, is_some, ltb, Bool-cases, Option-cases, if◌then◌else◌,
  arith,
}
use mathlib.Core.List.{append_assoc, append-nil}
use mathlib.Core.Path.{subst}
use void_protocol_oss.Base.Bytes.{Bytes, bytes_eq}
use void_protocol_oss.Base.Dict.{bytes_Eq, lookup, lookup-insert}
use void_protocol_oss.Wire.Crc.{Crc32}
use void_protocol_oss.Wire.Signature.{Ed25519}
use void_protocol_oss.Protocol.Kaitai.{Kaitai}
use void_protocol_oss.Chain.Watcher.{
  SettlementEvent, Log, EventFilterer, PollError, Watcher, Polled, collect, advance, poll_logs,
  poll_head, poll,
}
use void_protocol_oss.Chain.Watcher.Run.Blocks.{
  logs_in, logs_in-append, IsChain, IsHonest, events_of, events_of-append,
}
use void_protocol_oss.Chain.Watcher.Run.Once.{IsCaughtUp, poll-IsCaughtUp}
use void_protocol_oss.Receipt.Json.{Json}
use void_protocol_oss.Receipt.Store.{
  Store, StoreError, Table, WriteIo, mark_dispatched, write_line_locked, write_out,
}
use void_protocol_oss.Receipt.Store.Calls.{mark_cases}
use void_protocol_oss.Receipt.Store.Effect.{dispatched}
use void_protocol_oss.Receipt.Record.{dedup_key}
use void_protocol_oss.Receipt.Processor.{EthText, Processor, HandleError, handle}
use void_protocol_oss.Egress.{AckRequest, answer_ack, handle_egress_ack}
use void_protocol_oss.Server.{Receiving, received, on_settlement}
use void_protocol_oss.Server.Recorded.{IsReady, IsRecorded, IsStep, handle-IsStep}
use void_protocol_oss.Server.Gateway.Rows.{answer_ack-store}
use void_protocol_oss.Server.Gateway.{
  Request, post_ingest, get_pending, post_ack, Worker, Gateway, store_of, egress_store, with_store,
  Input, requests, timer_fires, polls, handles, polled_worker, when_idle, poll_worker, next_event,
  on_worker, handle_worker, route, step, serve_all,
}

-- The polls read one chain, each at its head.
abbrev pub IsOf : (ℕ → List Log) → (ℕ → ℕ) → Input → Type 0
IsOf chain time (requests r) = Unit {0}
IsOf chain time timer_fires = Unit {0}
IsOf chain time (polls client) = (head : ℕ) × IsHonest chain time head client
IsOf chain time (handles io) = Unit {0}

module _ (eth : EthText) (ed : Ed25519) (crc : Crc32) (json : Json) where
  -- The calls that lead from a first state of the watcher's handler to another: calls of Handle,
  -- with their events in order, and between them calls of MarkDispatched on the same store.
  pub data IsServed (first : Receiving) : List SettlementEvent → Receiving → Type 0 where
    none_called : IsServed first [] first
    calls_handle :
        {evs : List SettlementEvent} {r : Receiving} (io : WriteIo) (ev : SettlementEvent)
        → IsServed first evs r
        → IsServed first
            (evs ++ (ev ∷ []))
            (received eth ed crc json (λ n. io) r (handle eth ed crc json io ev r.processor))
    calls_mark :
        {evs : List SettlementEvent} {r : Receiving} (io : WriteIo) (p h : Bytes)
        → IsServed first evs r
        → IsServed first evs (record r {
          processor = record r.processor {
            store = (mark_dispatched json io p h r.processor.store).0;
          };
        })

module _ (eth : EthText) (ed : Ed25519) (crc : Crc32) (json : Json) (chain : ℕ → List Log)
    (time : ℕ → ℕ) (from : ℕ) where
  abbrev pub IsStored : Store → SettlementEvent → Type 0
  IsStored = IsRecorded eth ed crc json (λ n. record { stops_after = none; synced = true })

  -- The settlements from a block to the cursor are those with which Handle was called since the
  -- first state, in their order, and, behind them, those of the inbox; where no call has failed,
  -- the former have their receipts.
  pub record IsTracked (first : Receiving) (w : Worker) : Type 0 where
    pub ready : IsReady w.receiving.processor
    pub blocks : ℕ
    pub moved : from + blocks ≡ w.watcher.next_block
    pub had : List SettlementEvent
    pub served : IsServed eth ed crc json first had w.receiving
    pub is_read : events_of time (logs_in chain from blocks) ≡ some (had ++ w.inbox)
    pub recorded : w.receiving.errors ≡ [] → All (IsStored (store_of w)) had

  pub keeps_All :
      (s s' : Store) (evs : List SettlementEvent)
      → ((key : Bytes)
          → is_some (lookup key s.records) ≡ true
          → is_some (lookup key s'.records) ≡ true)
      → All (IsStored s) evs
      → All (IsStored s') evs
  keeps_All s s' [] k a = tt
  keeps_All s s' (ev ∷ evs) k a = (k _ a.0, keeps_All s s' evs k a.1)

  pub polled-IsTracked :
      (first : Receiving) (head : ℕ) (client : EventFilterer) (w : Worker)
      (o : Watcher × List SettlementEvent × Option PollError)
      → IsChain chain
      → IsHonest chain time head client
      → w.inbox ≡ []
      → IsTracked first w
      → poll client w.watcher ≡ o
      → o.2 ≡ none
      → IsTracked first (polled_worker w (o.0, o.1, none))
  polled-IsTracked first head client w o c h empty v e ok =
      let caught =
        poll-IsCaughtUp chain time head client w.watcher o.0 o.1 c h
          (e ∙ ap (λ x. (o.0, o.1, x)) ok) in
      let a = v.moved in
      let b = caught.moved in
      let had_all : events_of time (logs_in chain from v.blocks) ≡ some v.had =
        v.is_read ∙ ap (λ x. some (v.had ++ x)) empty ∙ ap some (append-nil v.had) in
      record {
        ready = record { seeded = v.ready.seeded; counted = v.ready.counted };
        blocks = v.blocks + caught.blocks;
        moved = omega (arith, a, b);
        had = v.had;
        served = v.served;
        is_read =
            ap (events_of time) (
              logs_in-append chain from v.blocks caught.blocks
              ∙ ap (λ x. logs_in chain from v.blocks ++ logs_in chain x caught.blocks) a)
            ∙ events_of-append time (logs_in chain from v.blocks)
                (logs_in chain w.watcher.next_block caught.blocks) v.had o.1 had_all caught.is_read;
        recorded = v.recorded;
      }
