-- ===== src/Server/Gateway/Kept.antt =====
-- What the interleaved steps of the gateway, and a restart after them, keep of its receipts.
use void_protocol_oss.Base.{
  ◌≡◌, refl, sym, ap, ◌∙◌, eq_of_some, none, some, List, [], ◌∷◌, All, arith,
}
use mathlib.Core.Path.{subst}
use void_protocol_oss.Base.Bytes.{Bytes}
use void_protocol_oss.Base.Dict.{bytes_Eq}
use void_protocol_oss.Wire.Crc.{Crc32}
use void_protocol_oss.Wire.Signature.{Ed25519}
use void_protocol_oss.Protocol.Kaitai.{Kaitai}
use void_protocol_oss.Receipt.Record.{Record}
use void_protocol_oss.Receipt.Json.{Json}
use void_protocol_oss.Receipt.Store.{
  Store, StoreError, ok, WriteIo, LoadIo, pending_records, new_store,
}
use void_protocol_oss.Receipt.Store.Recovery.{Covers, IsDurable}
use void_protocol_oss.Receipt.Store.History.{
  Event, restarts, IsWhole, fresh, run, run-IsDurable, durable_after, eq_of_ok,
}
use void_protocol_oss.Receipt.Processor.{EthText}
use void_protocol_oss.Egress.{
  Response, AckRequest, respond, receipts, acknowledged, egress_page_size, handle_egress_pending,
  handle_egress_ack,
}
use void_protocol_oss.Egress.Answers.{request_key}
use void_protocol_oss.Egress.Drain.{acked}
use void_protocol_oss.Server.Gateway.{
  egressed, Worker, Gateway, store_of, egress_store, with_store, Input, requests, post_ack, route,
  step, serve_all,
}
use void_protocol_oss.Server.Gateway.Rows.{IsSound, IsRunning, Leads}
use void_protocol_oss.Server.Gateway.Rows.Steps.{step-Leads, serve_all-Leads}
use void_protocol_oss.Server.Gateway.Acked.{
  OfOtherKey, IsDispatched, pending_records-OfOtherKey, Covers-IsDispatched,
  mark_dispatched-IsDispatched,
}

-- A store that a history without torn writes has made.
abbrev pub HasHistory : Json → Store → Type 0
HasHistory json s = (es : List Event) × All IsWhole es × (run json es fresh ≡ ok s)

module _ (eth : EthText) (ed : Ed25519) (crc : Crc32) (json : Json) (k : Kaitai)
    (hex_to_address : Bytes → Bytes) where
  -- After the inputs and after a restart that follows them.
  record IsKept (w w' : Worker) (io : LoadIo) : Type 0 where
    running : IsRunning w'
    durable : IsDurable json (store_of w')
    covers : Covers (store_of w).records (store_of w').records
    restarted : Store
    loads : new_store json io (store_of w').content ≡ ok restarted
    restarted_durable : IsDurable json restarted
    restarted_covers : Covers (store_of w').records restarted.records

  Leads-IsKept :
      (w w' : Worker) (io : LoadIo)
      → IsWhole (restarts io)
      → IsDurable json (store_of w)
      → Leads eth ed crc json w w'
      → IsKept w w' io
  unfolding run void_protocol_oss.Receipt.Store.History.step
  Leads-IsKept w w' io l v lead =
      let (s, e, d, c) = run-IsDurable json lead.events (store_of w) lead.whole v in
      let same : s ≡ store_of w' = eq_of_ok (sym e ∙ lead.runs) in
      let d' = subst (IsDurable json) same d in
      let c' : Covers (store_of w).records (store_of w').records =
        subst (λ (x : Store). Covers (store_of w).records x.records) same c in
      let (r, e₂, d₂, c₂) = run-IsDurable json (restarts io ∷ []) (store_of w') (l, tt) d' in
      record {
        running = lead.running;
        durable = d';
        covers = c';
        restarted = r;
        loads = ground (arith, e₂);
        restarted_durable = d₂;
        restarted_covers = c₂;
      }

  -- However the requests, the timer, the polls and the handled settlements interleave, over whole
  -- writes and nodes of the escrow contract, a restart of the gateway after them succeeds, and no
  -- receipt of the store is lost, neither before nor after the restart: it is as it was, or
  -- dispatched.
  pub gateway_keeps_receipts :
      (is : List Input) (io : LoadIo) (g : Gateway) (w : Worker)
      → All IsSound is
      → IsWhole (restarts io)
      → g.worker ≡ some w
      → IsRunning w
      → HasHistory json (store_of w)
      → (w' : Worker) × ((serve_all eth ed crc json k hex_to_address is g).0.worker ≡ some w')
        × Covers (store_of w).records (store_of w').records
        × (s : Store) × (new_store json io (store_of w').content ≡ ok s)
        × Covers (store_of w').records s.records
  gateway_keeps_receipts is io g w sound whole e v (es, ws, h) =
      let (w', e', lead) = serve_all-Leads eth ed crc json k hex_to_address is g w sound e v in
      let kept = Leads-IsKept w w' io whole (durable_after json es (store_of w) ws h) lead in
      (w', e', kept.covers, kept.restarted, kept.loads, kept.restarted_covers)

  egressed-injective : {a b : Response} → some (egressed a) ≡ some (egressed b) → a ≡ b
  egressed-injective e = cc

  acknowledged-IsDispatched :
      (io : WriteIo) (req : AckRequest) (g g' : Gateway) (w w' : Worker)
      → g.worker ≡ some w
      → (step eth ed crc json k hex_to_address (requests (post_ack io (some req))) g).0 ≡ g'
      → g'.worker ≡ some w'
      → (step eth ed crc json k hex_to_address (requests (post_ack io (some req))) g).1.response
        ≡ some (egressed (respond 200 acknowledged))
      → IsDispatched (request_key req) (store_of w').records
  unfolding step route
  acknowledged-IsDispatched io req g g' w w' e f e' a =
      let o = handle_egress_ack json io (some req) (some (store_of w)) in
      let good : o.1 ≡ respond 200 acknowledged = egressed-injective (
        ap (λ x. some (egressed (handle_egress_ack json io (some req) (egress_store x)).1)) (sym e)
        ∙ a) in
      let (s₁, left, m) = acked json io req (store_of w) o.0 (ap (λ x. (o.0, x)) good) in
      let now : some (store_of w') ≡ some s₁ =
        ap egress_store (sym e')
        ∙ ap (λ (x : Gateway). egress_store x.worker) (sym f)
        ∙ ap
            (λ x.
              egress_store (with_store x (handle_egress_ack json io (some req) (egress_store x)).0))
            e
        ∙ ap (λ x. egress_store (with_store (some w) x)) left in
      subst (λ (x : Store). IsDispatched (request_key req) x.records) (sym (eq_of_some now))
        (mark_dispatched-IsDispatched json io req.payment_id req.settlement_tx_hash (store_of w) s₁
          m)

  -- In a running gateway over a history without torn writes, a receipt whose acknowledgement was
  -- answered 200 is not handed out again: whatever requests, firings of the timer, polls and
  -- handled settlements follow, over whole writes and nodes of the escrow contract, the pending
  -- endpoint then answers 200 with a page without it, and a store that is opened again over the
  -- file has no such page either.
  pub acknowledged_stays :
      (is : List Input) (io : WriteIo) (load : LoadIo) (req : AckRequest) (g : Gateway) (w : Worker)
      → All IsSound is
      → io.stops_after ≡ none
      → IsWhole (restarts load)
      → g.worker ≡ some w
      → IsRunning w
      → HasHistory json (store_of w)
      → (step eth ed crc json k hex_to_address (requests (post_ack io (some req))) g).1.response
        ≡ some (egressed (respond 200 acknowledged))
      → (w' : Worker) × (page : List Record) × (s : Store) × ((serve_all eth ed crc json k
            hex_to_address
            (requests (post_ack io (some req)) ∷ is)
            g).0.worker
          ≡ some w')
        × (handle_egress_pending (egress_store (some w')) ≡ respond 200 (receipts page))
        × All (OfOtherKey (request_key req)) page
        × (new_store json load (store_of w').content ≡ ok s)
        × All (OfOtherKey (request_key req)) (pending_records egress_page_size s)
  unfolding serve_all handle_egress_pending
  acknowledged_stays is io load req g w sound whole l e v (es, ws, h) a =
      let first = step eth ed crc json k hex_to_address (requests (post_ack io (some req))) g in
      let key = request_key req in
      let (w₁, e₁, lead₁) =
        step-Leads eth ed crc json k hex_to_address (requests (post_ack io (some req))) g w whole e
          v in
      let kept₁ = Leads-IsKept w w₁ load l (durable_after json es (store_of w) ws h) lead₁ in
      let (w', e', lead) =
        serve_all-Leads eth ed crc json k hex_to_address is first.0 w₁ sound e₁ lead₁.running in
      let kept = Leads-IsKept w₁ w' load l kept₁.durable lead in
      let d : IsDispatched key (store_of w').records =
        Covers-IsDispatched key (store_of w₁).records (store_of w').records kept.covers
          (acknowledged-IsDispatched io req g first.0 w w₁ e refl e₁ a) in
      (
        w',
        pending_records egress_page_size (store_of w'),
        kept.restarted,
        e',
        refl,
        pending_records-OfOtherKey key egress_page_size (store_of w') kept.durable.rows d,
        kept.loads,
        pending_records-OfOtherKey key egress_page_size kept.restarted kept.restarted_durable.rows (
            Covers-IsDispatched key (store_of w').records kept.restarted.records
              kept.restarted_covers d),
      )
