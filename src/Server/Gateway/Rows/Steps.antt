-- ===== src/Server/Gateway/Rows/Steps.antt =====
-- The store of a running gateway through each of its steps.
use void_protocol_oss.Base.{
  ◌≡◌, refl, sym, ap, ◌∙◌, inl, inr, Bool, true, false, ◌||◌, Option, none, some, List, [], ◌∷◌,
  ◌++◌, All, All-append, Bool-cases,
}
use mathlib.Core.Path.{subst}
use void_protocol_oss.Base.Bytes.{Bytes, bytes_eq}
use void_protocol_oss.Base.Dict.{bytes_Eq}
use void_protocol_oss.Wire.Crc.{Crc32}
use void_protocol_oss.Wire.Signature.{Ed25519}
use void_protocol_oss.Protocol.Kaitai.{Kaitai}
use void_protocol_oss.Chain.Watcher.{SettlementEvent, PollError, Watcher, poll}
use void_protocol_oss.Receipt.Json.{Json}
use void_protocol_oss.Receipt.Store.{
  Store, StoreError, Loaded, ok, WriteIo, append, mark_dispatched,
}
use void_protocol_oss.Receipt.Store.History.{Event, appends, marks, IsWhole, run, run-append}
use void_protocol_oss.Receipt.Processor.{EthText, handle}
use void_protocol_oss.Receipt.Processor.Replay.{IsOnChain}
use void_protocol_oss.Egress.{AckRequest, handle_egress_ack}
use void_protocol_oss.Server.{on_settlement}
use void_protocol_oss.Server.Settlements.Polled.{poll-IsOnChain}
use void_protocol_oss.Server.Gateway.{
  post_ingest, get_pending, post_ack, Worker, Gateway, store_of, egress_store, with_store, Input,
  requests, timer_fires, polls, handles, polled_worker, poll_worker, when_idle, on_worker,
  next_event, handle_worker, route, step, serve_all,
}
use void_protocol_oss.Server.Gateway.Rows.{
  answer_ack-store, IsSound, IsRunning, Leads, stays, IsCall, handle-IsCall, received-processor,
}

module _ (eth : EthText) (ed : Ed25519) (crc : Crc32) (json : Json) where
  module _ (k : Kaitai) (hex_to_address : Bytes → Bytes) where
    next_event-Leads :
        (io : WriteIo) (evs : List SettlementEvent) (w : Worker)
        → io.stops_after ≡ none
        → IsRunning w
        → All IsOnChain evs
        → Leads eth ed crc json w (next_event eth ed crc json k hex_to_address io evs w)
    unfolding on_settlement
    next_event-Leads io [] w s v c = stays eth ed crc json w v
    next_event-Leads io (ev ∷ evs) w s v c =
        let p = w.receiving.processor in
        let same =
          received-processor eth ed crc json io w.receiving (handle eth ed crc json io ev p) in
        let call : IsCall eth ed crc json p
            (on_settlement eth ed crc json (λ n. io) w.receiving ev).processor =
          subst (IsCall eth ed crc json p) (sym same)
            (handle-IsCall eth ed crc json io ev p s c.0 v.ready) in
        record {
          events = call.events;
          whole = call.whole;
          runs = call.runs;
          running = record { ready = call.ready; due = c.1 };
        }

    polled_worker-Leads :
        (w : Worker) (o : Watcher × List SettlementEvent × Option PollError)
        → IsRunning w
        → All IsOnChain o.1
        → Leads eth ed crc json w (polled_worker w o)
    unfolding run
    polled_worker-Leads w (x, evs, none) v c = record {
      events = [];
      whole = tt;
      runs = refl;
      running = record {
        ready = record { seeded = v.ready.seeded; counted = v.ready.counted };
        due = c;
      };
    }
    polled_worker-Leads w (x, evs, some e) v c = record {
      events = [];
      whole = tt;
      runs = refl;
      running = record {
        ready = record { seeded = v.ready.seeded; counted = v.ready.counted };
        due = v.due;
      };
    }

    when_idle-Leads :
        (b : Bool) (evs : List SettlementEvent) (next w : Worker)
        → Leads eth ed crc json w next
        → IsRunning w
        → Leads eth ed crc json w (when_idle b evs next w)
    when_idle-Leads false evs next w l v = stays eth ed crc json w v
    when_idle-Leads true [] next w l v = l
    when_idle-Leads true (ev ∷ evs) next w l v = stays eth ed crc json w v

    ack-Leads :
        (io : WriteIo) (req : Option AckRequest) (w : Worker)
        → io.stops_after ≡ none
        → IsRunning w
        → (w' : Worker) × (with_store
              (some w)
              (handle_egress_ack json io req (egress_store (some w))).0
            ≡ some w')
          × Leads eth ed crc json w w'
    unfolding handle_egress_ack run void_protocol_oss.Receipt.Store.History.step
    ack-Leads io none w s v = (_, refl, stays eth ed crc json w v)
    ack-Leads io (some req) w s v =
        elim (Bool-cases (bytes_eq req.payment_id [] || bytes_eq req.settlement_tx_hash [])) [
          | inl b ↦ (w, rw b refl, stays eth ed crc json w v)
          | inr b ↦
              let m = mark_dispatched json io req.payment_id req.settlement_tx_hash (store_of w) in
              (
                record w {
                  receiving = record w.receiving {
                    processor = record w.receiving.processor { store = m.0 };
                  };
                },
                rw b (ap (with_store (some w)) (answer_ack-store m)),
                record {
                  events = marks io req.payment_id req.settlement_tx_hash ∷ [];
                  whole = (s, tt);
                  runs = refl;
                  running = record {
                    ready = record { seeded = v.ready.seeded; counted = v.ready.counted };
                    due = v.due;
                  };
                },
              )
        ]

    -- One step, whatever it is, on a gateway with a store.
    pub step-Leads :
        (i : Input) (g : Gateway) (w : Worker)
        → IsSound i
        → g.worker ≡ some w
        → IsRunning w
        → (w' : Worker) × ((step eth ed crc json k hex_to_address i g).0.worker ≡ some w')
          × Leads eth ed crc json w w'
    unfolding step route poll_worker handle_worker
    step-Leads (requests (post_ingest raw)) g w s e v = (w, e, stays eth ed crc json w v)
    step-Leads (requests get_pending) g w s e v = (w, e, stays eth ed crc json w v)
    step-Leads (requests (post_ack io req)) g w s e v =
        let (w', same, l) = ack-Leads io req w s v in
        (w', ap (λ x. with_store x (handle_egress_ack json io req (egress_store x)).0) e ∙ same, l)
    step-Leads timer_fires g w s e v = (w, e, stays eth ed crc json w v)
    step-Leads (polls client) g w s e v = (
      poll_worker client w,
      ap (on_worker eth ed crc json k hex_to_address (poll_worker client)) e,
      when_idle-Leads w.running w.inbox (polled_worker w (poll client w.watcher)) w
          (polled_worker-Leads w (poll client w.watcher) v (poll-IsOnChain client w.watcher s)) v,
    )
    step-Leads (handles io) g w s e v = (
      handle_worker eth ed crc json k hex_to_address io w,
      ap
          (on_worker eth ed crc json k hex_to_address
            (handle_worker eth ed crc json k hex_to_address io))
          e,
      next_event-Leads io w.inbox w s v v.due,
    )

    Leads-trans :
        (a b c : Worker)
        → Leads eth ed crc json a b
        → Leads eth ed crc json b c
        → Leads eth ed crc json a c
    Leads-trans a b c l m = record {
      events = l.events ++ m.events;
      whole = All-append IsWhole l.events m.events l.whole m.whole;
      runs = run-append json l.events m.events (store_of a) (store_of b) (store_of c) l.runs m.runs;
      running = m.running;
    }

    -- However the requests, the timer, the polls and the handled settlements interleave, over
    -- whole writes and nodes of the escrow contract, the gateway keeps its store, and what
    -- they do to it is a history of appends and acknowledgements without torn writes.
    pub serve_all-Leads :
        (is : List Input) (g : Gateway) (w : Worker)
        → All IsSound is
        → g.worker ≡ some w
        → IsRunning w
        → (w' : Worker) × ((serve_all eth ed crc json k hex_to_address is g).0.worker ≡ some w')
          × Leads eth ed crc json w w'
    unfolding serve_all
    serve_all-Leads [] g w s e v = (w, e, stays eth ed crc json w v)
    serve_all-Leads (i ∷ is) g w s e v =
        let (w₁, e₁, l₁) = step-Leads i g w s.0 e v in
        let (w', e', l') =
          serve_all-Leads is (step eth ed crc json k hex_to_address i g).0 w₁ s.1 e₁ l₁.running in
        (w', e', Leads-trans w w₁ w' l₁ l')
