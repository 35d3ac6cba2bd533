-- ===== src/Server/Gateway/Tracked/Steps.antt =====
-- The settlements of a chain through each step of the gateway.
use void_protocol_oss.Base.{
  ℕ, ◌≡◌, refl, sym, ap, ◌∙◌, inl, inr, Bool, true, false, ◌||◌, Option, none, some, List, [], ◌∷◌,
  ◌++◌, All, All-append, is_some, Bool-cases, arith,
}
use mathlib.Core.List.{append_assoc}
use mathlib.Core.Path.{subst}
use void_protocol_oss.Base.Bytes.{Bytes, bytes_eq}
use void_protocol_oss.Base.Dict.{bytes_Eq, lookup, lookup-insert}
use void_protocol_oss.Wire.Crc.{Crc32}
use void_protocol_oss.Wire.Signature.{Ed25519}
use void_protocol_oss.Protocol.Kaitai.{Kaitai}
use void_protocol_oss.Chain.Watcher.{SettlementEvent, Log, EventFilterer, PollError, Watcher, poll}
use void_protocol_oss.Chain.Watcher.Run.Blocks.{IsChain, IsHonest}
use void_protocol_oss.Receipt.Json.{Json}
use void_protocol_oss.Receipt.Store.{Store, Table, WriteIo, mark_dispatched}
use void_protocol_oss.Receipt.Store.Calls.{mark_cases}
use void_protocol_oss.Receipt.Store.Effect.{dispatched}
use void_protocol_oss.Receipt.Record.{dedup_key}
use void_protocol_oss.Receipt.Processor.{EthText, Processor, HandleError, handle}
use void_protocol_oss.Egress.{AckRequest, handle_egress_ack}
use void_protocol_oss.Server.{Receiving, received, on_settlement}
use void_protocol_oss.Server.Recorded.{IsStep, handle-IsStep}
use void_protocol_oss.Server.Gateway.Rows.{answer_ack-store}
use void_protocol_oss.Server.Gateway.{
  post_ingest, get_pending, post_ack, Worker, Gateway, store_of, egress_store, with_store, Input,
  requests, timer_fires, polls, handles, polled_worker, when_idle, poll_worker, next_event,
  on_worker, handle_worker, route, step, serve_all,
}
use void_protocol_oss.Chain.Watcher.Run.Failing.{poll_error_stays}
use void_protocol_oss.Server.Gateway.Tracked.{
  IsServed, calls_handle, calls_mark, IsOf, IsTracked, IsStored, keeps_All, polled-IsTracked,
}

module _ (eth : EthText) (ed : Ed25519) (crc : Crc32) (json : Json) (chain : ℕ → List Log)
    (time : ℕ → ℕ) (from : ℕ) (first : Receiving) where
  stopped-IsTracked :
      (w : Worker) (x : Watcher) (evs : List SettlementEvent) (er : PollError)
      → x ≡ w.watcher
      → IsTracked eth ed crc json chain time from first w
      → IsTracked eth ed crc json chain time from first (polled_worker w (x, evs, some er))
  stopped-IsTracked w x evs er same v = record {
    ready = record { seeded = v.ready.seeded; counted = v.ready.counted };
    blocks = v.blocks;
    moved = v.moved ∙ ap (λ (y : Watcher). y.next_block) (sym same);
    had = v.had;
    served = v.served;
    is_read = v.is_read;
    recorded = v.recorded;
  }

  poll_worker-IsTracked :
      (head : ℕ) (client : EventFilterer) (w : Worker)
      → IsChain chain
      → IsHonest chain time head client
      → IsTracked eth ed crc json chain time from first w
      → (b : Bool) (evs : List SettlementEvent) → w.inbox ≡ evs
      → (o : Watcher × List SettlementEvent × Option PollError) → poll client w.watcher ≡ o
      → IsTracked eth ed crc json chain time from first (when_idle b evs (polled_worker w o) w)
  poll_worker-IsTracked head client w c h v false evs i o e = v
  poll_worker-IsTracked head client w c h v true (ev ∷ evs) i o e = v
  poll_worker-IsTracked head client w c h v true [] i (x, evs, none) e =
      polled-IsTracked eth ed crc json chain time from first head client w (x, evs, none) c h i v e
        refl
  poll_worker-IsTracked head client w c h v true [] i (x, evs, some er) e =
      stopped-IsTracked w x evs er
        (ap (λ (y : Watcher × List SettlementEvent × Option PollError). y.0) (sym e)
          ∙ poll_error_stays client w.watcher er
              (ap (λ (y : Watcher × List SettlementEvent × Option PollError). y.2) e))
        v

  handle-IsServed :
      (io : WriteIo) (ev : SettlementEvent) (w : Worker) (had : List SettlementEvent)
      (o : Processor × Option HandleError)
      → IsServed eth ed crc json first had w.receiving
      → handle eth ed crc json io ev w.receiving.processor ≡ o
      → IsServed eth ed crc json first
          (had ++ (ev ∷ []))
          (received eth ed crc json (λ n. io) w.receiving o)
  handle-IsServed io ev w had o v e =
      subst
        (λ x.
          IsServed eth ed crc json first (had ++ (ev ∷ []))
            (received eth ed crc json (λ n. io) w.receiving x))
        e (calls_handle io ev v)

  received-IsTracked :
      (io : WriteIo) (ev : SettlementEvent) (evs : List SettlementEvent) (w : Worker)
      (o : Processor × Option HandleError)
      → w.inbox ≡ ev ∷ evs
      → IsTracked eth ed crc json chain time from first w
      → handle eth ed crc json io ev w.receiving.processor ≡ o
      → IsStep eth ed crc json (λ n. io) w.receiving.processor ev o
      → IsTracked eth ed crc json chain time from first
          (record w { receiving = received eth ed crc json (λ n. io) w.receiving o; inbox = evs })
  received-IsTracked io ev evs w (p, some er) i v e s = record {
    ready = s.ready;
    blocks = v.blocks;
    moved = v.moved;
    had = v.had ++ (ev ∷ []);
    served = handle-IsServed io ev w v.had (p, some er) v.served e;
    is_read =
        v.is_read
        ∙ ap (λ x. some (v.had ++ x)) i
        ∙ ap some (sym (append_assoc v.had (ev ∷ []) evs));
    recorded = λ q. absurd (ground (arith, q));
  }
  received-IsTracked io ev evs w (p, none) i v e s = record {
    ready = s.ready;
    blocks = v.blocks;
    moved = v.moved;
    had = v.had ++ (ev ∷ []);
    served = handle-IsServed io ev w v.had (p, none) v.served e;
    is_read =
        v.is_read
        ∙ ap (λ x. some (v.had ++ x)) i
        ∙ ap some (sym (append_assoc v.had (ev ∷ []) evs));
    recorded = λ q.
        All-append (IsStored eth ed crc json chain time from p.store) v.had (ev ∷ [])
          (keeps_All eth ed crc json chain time from (store_of w) p.store v.had s.keeps
            (v.recorded q))
          (s.records refl, tt);
  }

  next_event-IsTracked :
      (k : Kaitai) (hex_to_address : Bytes → Bytes) (io : WriteIo) (evs : List SettlementEvent)
      (w : Worker)
      → w.inbox ≡ evs
      → IsTracked eth ed crc json chain time from first w
      → IsTracked eth ed crc json chain time from first
          (next_event eth ed crc json k hex_to_address io evs w)
  unfolding on_settlement
  next_event-IsTracked k hex_to_address io [] w i v = v
  next_event-IsTracked k hex_to_address io (ev ∷ evs) w i v =
      received-IsTracked io ev evs w (handle eth ed crc json io ev w.receiving.processor) i v refl
        (handle-IsStep eth ed crc json (λ n. io) io w.receiving.processor ev v.ready)

  mark_keeps :
      (io : WriteIo) (p h : Bytes) (s : Store) (key : Bytes)
      → is_some (lookup key s.records) ≡ true
      → is_some (lookup key (mark_dispatched json io p h s).0.records) ≡ true
  mark_keeps io p h s key e = elim (mark_cases json io p h s) [
    | inl (t, _) ↦ ap (λ (x : Table). is_some (lookup key x.records)) t ∙ e
    | inr (r, _, inl (_, t)) ↦ ap (λ (x : Table). is_some (lookup key x.records)) t ∙ e
    | inr (r, _, inr t) ↦
        ap (λ (x : Table). is_some (lookup key x.records)) t
        ∙ (ground (arith, e, lookup-insert (dedup_key p h) key (dispatched r) s.records))
  ]

  abbrev over : Worker → Store → Receiving
  over w s = record w.receiving { processor = record w.receiving.processor { store = s } }

  answered_store-IsTracked :
      (w : Worker) (s : Store)
      → ((had : List SettlementEvent)
          → IsServed eth ed crc json first had w.receiving
          → IsServed eth ed crc json first had (over w s))
      → ((key : Bytes)
          → is_some (lookup key (store_of w).records) ≡ true
          → is_some (lookup key s.records) ≡ true)
      → IsTracked eth ed crc json chain time from first w
      → (w' : Worker) × (with_store (some w) (some s) ≡ some w')
        × IsTracked eth ed crc json chain time from first w'
  answered_store-IsTracked w s call keep v = (
    _,
    refl,
    record {
      ready = record { seeded = v.ready.seeded; counted = v.ready.counted };
      blocks = v.blocks;
      moved = v.moved;
      had = v.had;
      served = call v.had v.served;
      is_read = v.is_read;
      recorded =
          λ e. keeps_All eth ed crc json chain time from (store_of w) s v.had keep (v.recorded e);
    },
  )

  module _ (k : Kaitai) (hex_to_address : Bytes → Bytes) where
    acked_store-IsTracked :
        (io : WriteIo) (req : Option AckRequest) (w : Worker)
        → IsTracked eth ed crc json chain time from first w
        → (w' : Worker) × (with_store
              (some w)
              (handle_egress_ack json io req (egress_store (some w))).0
            ≡ some w')
          × IsTracked eth ed crc json chain time from first w'
    unfolding handle_egress_ack
    acked_store-IsTracked io none w v =
        answered_store-IsTracked w (store_of w) (λ had c. c) (λ key h. h) v
    acked_store-IsTracked io (some req) w v =
        elim (Bool-cases (bytes_eq req.payment_id [] || bytes_eq req.settlement_tx_hash [])) [
          | inl b ↦ rw b (answered_store-IsTracked w (store_of w) (λ had c. c) (λ key h. h) v)
          | inr b ↦
              let m = mark_dispatched json io req.payment_id req.settlement_tx_hash (store_of w) in
              let (w', e, t) =
                answered_store-IsTracked w m.0
                  (λ had c. calls_mark io req.payment_id req.settlement_tx_hash c)
                  (mark_keeps io req.payment_id req.settlement_tx_hash (store_of w)) v in
              (w', rw b (ap (with_store (some w)) (answer_ack-store m) ∙ e), t)
        ]

    step-IsTracked :
        (i : Input) (g : Gateway) (w : Worker)
        → IsChain chain
        → IsOf chain time i
        → g.worker ≡ some w
        → IsTracked eth ed crc json chain time from first w
        → (w' : Worker) × ((step eth ed crc json k hex_to_address i g).0.worker ≡ some w')
          × IsTracked eth ed crc json chain time from first w'
    unfolding step route poll_worker handle_worker
    step-IsTracked (requests (post_ingest raw)) g w c n e v = (w, e, v)
    step-IsTracked (requests get_pending) g w c n e v = (w, e, v)
    step-IsTracked (requests (post_ack io req)) g w c n e v =
        let (w', same, t) = acked_store-IsTracked io req w v in
        (w', ap (λ x. with_store x (handle_egress_ack json io req (egress_store x)).0) e ∙ same, t)
    step-IsTracked timer_fires g w c n e v = (w, e, v)
    step-IsTracked (polls client) g w c (head, n) e v = (
      poll_worker client w,
      ap (on_worker eth ed crc json k hex_to_address (poll_worker client)) e,
      poll_worker-IsTracked head client w c n v w.running w.inbox refl (poll client w.watcher) refl,
    )
    step-IsTracked (handles io) g w c n e v = (
      handle_worker eth ed crc json k hex_to_address io w,
      ap
          (on_worker eth ed crc json k hex_to_address
            (handle_worker eth ed crc json k hex_to_address io))
          e,
      next_event-IsTracked k hex_to_address io w.inbox w refl v,
    )

    -- However requests, firings of the timer, polls and handled settlements interleave, with writes
    -- and nodes that fail or not, over one chain, it stays true of the gateway, once it is, that
    -- the settlements from the first block to the watcher's cursor are, each once and in the order
    -- of the chain, the events of the calls of Handle that led from a first state of the handler to
    -- the present one, with acknowledgements between them, and behind them those of the inbox; and
    -- that, as long as none of the calls has failed, each settlement that was handled is in the store.
    pub gateway_tracks_settlements :
        (is : List Input) (g : Gateway) (w : Worker)
        → IsChain chain
        → All (IsOf chain time) is
        → g.worker ≡ some w
        → IsTracked eth ed crc json chain time from first w
        → (w' : Worker) × ((serve_all eth ed crc json k hex_to_address is g).0.worker ≡ some w')
          × IsTracked eth ed crc json chain time from first w'
    unfolding serve_all
    gateway_tracks_settlements [] g w c n e v = (w, e, v)
    gateway_tracks_settlements (i ∷ is) g w c n e v =
        let (w₁, e₁, v₁) = step-IsTracked i g w c n.0 e v in
        gateway_tracks_settlements is (step eth ed crc json k hex_to_address i g).0 w₁ c n.1 e₁ v₁
