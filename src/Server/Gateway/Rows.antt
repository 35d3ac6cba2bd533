-- ===== src/Server/Gateway/Rows.antt =====
-- The store of a running gateway: what the steps do to it, in whatever order they come.
pub mod Steps
use void_protocol_oss.Base.{
  ◌≡◌, refl, sym, ap, ◌∙◌, inl, inr, Bool, true, false, ◌||◌, Option, none, some, List, [], ◌∷◌,
  ◌++◌, All, All-append, is_some, Bool-cases, arith,
}
use mathlib.Core.Path.{subst}
use void_protocol_oss.Base.Bytes.{Bytes, bytes_eq}
use void_protocol_oss.Base.Dict.{bytes_Eq, lookup}
use void_protocol_oss.Wire.Crc.{Crc32}
use void_protocol_oss.Wire.Signature.{Ed25519}
use void_protocol_oss.Protocol.Kaitai.{Kaitai}
use void_protocol_oss.Chain.Watcher.{SettlementEvent, PollError, Watcher, poll}
use void_protocol_oss.Receipt.Json.{Json}
use void_protocol_oss.Receipt.Store.{
  Store, StoreError, Loaded, ok, WriteIo, append, mark_dispatched,
}
use void_protocol_oss.Receipt.Store.History.{Event, appends, marks, IsWhole, run, run-append}
use void_protocol_oss.Receipt.Processor.{EthText, Processor, HandleError, handle}
use void_protocol_oss.Receipt.Processor.Outcome.{key_of_event, receipt}
use void_protocol_oss.Receipt.Processor.Replay.{
  IsOnChain, receipt-IsStorable, replay_noop, handle_fresh,
}
use void_protocol_oss.Egress.{AckRequest, answer_ack, handle_egress_ack}
use void_protocol_oss.Server.{Receiving, received, on_settlement}
use void_protocol_oss.Server.Recorded.{IsReady}
use void_protocol_oss.Server.Settlements.Polled.{IsEscrowNode, poll-IsOnChain}
use void_protocol_oss.Server.Gateway.{
  post_ingest, get_pending, post_ack, Worker, Gateway, store_of, egress_store, with_store, Input,
  requests, timer_fires, polls, handles, polled_worker, poll_worker, when_idle, on_worker,
  next_event, handle_worker, route, step, serve_all,
}

-- Writes are not torn, and the node reports the escrow contract's logs.
abbrev pub IsSound : Input → Type 0
IsSound (requests (post_ingest raw)) = Unit {0}
IsSound (requests get_pending) = Unit {0}
IsSound (requests (post_ack io req)) = io.stops_after ≡ none
IsSound timer_fires = Unit {0}
IsSound (polls client) = IsEscrowNode client
IsSound (handles io) = io.stops_after ≡ none

-- What holds of the goroutine between two steps.
pub record IsRunning (w : Worker) : Type 0 where
  pub ready : IsReady w.receiving.processor
  pub due : All IsOnChain w.inbox

pub answer_ack-store : (o : Store × Option StoreError) → (answer_ack o).0 ≡ some o.0
answer_ack-store (s, none) = refl
answer_ack-store (s, some e) = refl

module _ (eth : EthText) (ed : Ed25519) (crc : Crc32) (json : Json) where
  -- From one worker to the next, by calls of the store.
  pub record Leads (w w' : Worker) : Type 0 where
    pub events : List Event
    pub whole : All IsWhole events
    pub runs : run json events (store_of w) ≡ ok (store_of w')
    pub running : IsRunning w'

  pub stays : (w : Worker) → IsRunning w → Leads w w
  unfolding run
  stays w v = record { events = []; whole = tt; runs = refl; running = v }

  -- One call of Handle is at most one append.
  pub record IsCall (p p' : Processor) : Type 0 where
    pub events : List Event
    pub whole : All IsWhole events
    pub runs : run json events p.store ≡ ok p'.store
    pub ready : IsReady p'

  pub handle-IsCall :
      (io : WriteIo) (ev : SettlementEvent) (p : Processor)
      → io.stops_after ≡ none
      → IsOnChain ev
      → IsReady p
      → IsCall p (handle eth ed crc json io ev p).0
  unfolding run void_protocol_oss.Receipt.Store.History.step
  handle-IsCall io ev p w c v =
      elim (Bool-cases (is_some (lookup (key_of_event eth ed crc json ev) p.store.records))) [
        | inl x ↦
            subst (λ (o : Processor × Option HandleError). IsCall p o.0)
              (sym (replay_noop eth ed crc json io ev p x))
              (record { events = []; whole = tt; runs = refl; ready = v })
        | inr x ↦
            let r = receipt eth ed crc json ev p in
            subst (λ (o : Processor × Option HandleError). IsCall p o.0)
              (sym (handle_fresh eth ed crc json io ev p v.seeded v.counted x))
              (record {
                events = appends io r ∷ [];
                whole = ((w, receipt-IsStorable eth ed crc json ev p c), tt);
                runs = refl;
                ready = record { seeded = v.seeded; counted = omega arith };
              })
      ]

  pub received-processor :
      (io : WriteIo) (r : Receiving) (o : Processor × Option HandleError)
      → (received eth ed crc json (λ n. io) r o).processor ≡ o.0
  received-processor io r (p, none) = refl
  received-processor io r (p, some e) = refl
