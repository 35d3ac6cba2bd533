-- ===== src/Egress/Drain.antt =====
-- A bouncer that polls a page and acknowledges each of its receipts.
use void_protocol_oss.Base.{
  ◌≡◌, refl, sym, ap, ◌∙◌, inl, inr, false, ◌||◌, Option, none, some, List, [], ◌∷◌, ◌++◌, take,
  drop, All, take-append-drop, Bool-cases, Option-cases, arith,
}
use mathlib.Core.Path.{subst}
use void_protocol_oss.Base.Bytes.{Bytes, bytes_eq, bytes_eq_refl}
use void_protocol_oss.Base.Dict.{bytes_Eq, lookup}
use void_protocol_oss.Receipt.Record.{Record, status_pending, key_of}
use void_protocol_oss.Receipt.Json.{Json}
use void_protocol_oss.Receipt.Store.{Store, StoreError, WriteIo, ok, mark_dispatched}
use void_protocol_oss.Receipt.Store.Effect.{Rows, AreRows, mark-Effect}
use void_protocol_oss.Receipt.Store.Index.{AreDistinct}
use void_protocol_oss.Receipt.Store.Pending.{waiting, pending_records-waiting}
use void_protocol_oss.Receipt.Store.Queue.{without, mark_dequeues}
use void_protocol_oss.Receipt.Store.Recovery.{IsDurable, Effect-IsDurable}
use void_protocol_oss.Receipt.Store.History.{
  Event, IsWhole, fresh, run, durable_after, history-IsIndexed,
}
use void_protocol_oss.Egress.{
  Response, Body, respond, receipts, AckRequest, answer_ack, handle_egress_pending,
  handle_egress_ack, acknowledged,
}

abbrev pub request_of : Record → AckRequest
request_of r = record { payment_id = r.payment_id; settlement_tx_hash = r.settlement_tx_hash }

abbrev pub OtherKey : Bytes → Record → Type 0
OtherKey k r = bytes_eq (key_of r) k ≡ false

abbrev pub KeysDiffer : List Record → Type 0
KeysDiffer [] = Unit {0}
KeysDiffer (r ∷ rs) = All (OtherKey (key_of r)) rs × KeysDiffer rs

waiting-OtherKey :
    (k : Bytes) (m : Rows) (ks : List Bytes)
    → AreRows m
    → All (λ j. bytes_eq j k ≡ false) ks
    → All (OtherKey k) (waiting m ks)
unfolding waiting
waiting-OtherKey k m [] rows h = tt
waiting-OtherKey k m (j ∷ ks) rows h = elim (Option-cases (lookup j m)) [
  | inl e ↦ rw (waiting, e) (waiting-OtherKey k m ks rows h.1)
  | inr (r, e) ↦
      let keyed = (rows j r e).keyed in
      ground (arith, e, keyed, h.0, waiting-OtherKey k m ks rows h.1)
]

pub waiting-KeysDiffer :
    (m : Rows) (ks : List Bytes) → AreRows m → AreDistinct ks → KeysDiffer (waiting m ks)
unfolding waiting
waiting-KeysDiffer m [] rows h = tt
waiting-KeysDiffer m (k ∷ ks) rows h = elim (Option-cases (lookup k m)) [
  | inl e ↦ rw (waiting, e) (waiting-KeysDiffer m ks rows h.1)
  | inr (r, e) ↦
      let keyed = (rows k r e).keyed in
      let others : All (OtherKey (key_of r)) (waiting m ks) =
        rw keyed (waiting-OtherKey k m ks rows h.0) in
      rw (waiting, e)
        (elim (Bool-cases (bytes_eq r.dispatch_status status_pending)) [
          | inl b ↦ rw b (others, waiting-KeysDiffer m ks rows h.1)
          | inr b ↦ rw b (waiting-KeysDiffer m ks rows h.1)
        ])
]

without-OtherKey : (k : Bytes) (rs : List Record) → All (OtherKey k) rs → without k rs ≡ rs
unfolding without
without-OtherKey k [] h = refl
without-OtherKey k (r ∷ rs) h = ground (arith, h.0, without-OtherKey k rs h.1)

abbrev rows_of : Body → List Record
rows_of (receipts rs) = rs
rows_of b = []

answered :
    (x : Store × Option StoreError) (s' : Option Store)
    → answer_ack x ≡ (s', respond 200 acknowledged)
    → (s₁ : Store) × (s' ≡ some s₁) × (x ≡ (s₁, none))
answered (s, none) s' e = (s, cc, refl)
answered (s, some er) s' e = absurd (ground (arith, e))

module _ (json : Json) (io : WriteIo) where
  pub acked :
      (req : AckRequest) (s : Store) (s' : Option Store)
      → handle_egress_ack json io (some req) (some s) ≡ (s', respond 200 acknowledged)
      → (s₁ : Store) × (s' ≡ some s₁)
        × (mark_dispatched json io req.payment_id req.settlement_tx_hash s ≡ (s₁, none))
  unfolding handle_egress_ack
  acked req s s' e =
      elim (Bool-cases (bytes_eq req.payment_id [] || bytes_eq req.settlement_tx_hash [])) [
        | inl b ↦ absurd (ground (arith, e, b))
        | inr b ↦
            answered (mark_dispatched json io req.payment_id req.settlement_tx_hash s) s'
              (ground (arith, e, b))
      ]

  -- Each receipt of a page is acknowledged in turn, and every answer is 200.
  abbrev pub Acknowledged : List Record → Store → Store → Type 0
  Acknowledged [] s s' = s' ≡ s
  Acknowledged (r ∷ rs) s s' =
      (s₁ : Store) × (handle_egress_ack json io (some (request_of r)) (some s)
        ≡ (some s₁, respond 200 acknowledged))
      × Acknowledged rs s₁ s'

  marked :
      (r : Record) (s s₁ : Store)
      → handle_egress_ack json io (some (request_of r)) (some s)
        ≡ (some s₁, respond 200 acknowledged)
      → mark_dispatched json io r.payment_id r.settlement_tx_hash s ≡ (s₁, none)
  marked r s s₁ a = let (s₂, e, m) = acked (request_of r) s (some s₁) a in ground (arith, e, m)

  pub first_leaves :
      (r : Record) (rs : List Record)
      → All (OtherKey (key_of r)) rs
      → without (key_of r) (r ∷ rs) ≡ rs
  unfolding without
  first_leaves r rs h = rw (bytes_eq_refl (key_of r)) (without-OtherKey (key_of r) rs h)

  drained :
      (page rest : List Record) (s s' : Store)
      → io.stops_after ≡ none
      → IsDurable json s
      → waiting s.records s.order ≡ page ++ rest
      → KeysDiffer (page ++ rest)
      → Acknowledged page s s'
      → waiting s'.records s'.order ≡ rest
  drained [] rest s s' w v q d a = ap (λ (x : Store). waiting x.records x.order) a ∙ q
  drained (r ∷ page) rest s s' w v q d (s₁, a, more) =
      let m = marked r s s₁ a in
      let v₁ : IsDurable json s₁ =
        subst (λ (x : Store × Option StoreError). IsDurable json x.0) m
          (Effect-IsDurable json v
            (mark-Effect json io r.payment_id r.settlement_tx_hash s w v.rows)) in
      let q₁ : waiting s₁.records s₁.order ≡ page ++ rest =
        mark_dequeues json io r.payment_id r.settlement_tx_hash s s₁ v.rows m
        ∙ ap (without (key_of r)) q
        ∙ first_leaves r (page ++ rest) d.0 in
      drained page rest s₁ s' w v₁ q₁ d.1 more

  -- After any history without torn writes, a bouncer that polls the pending endpoint and acknowledges
  -- each receipt of the page with the answer 200 has taken exactly the first ten receipts off the
  -- queue: the later ones are kept in their order, so that polls drain it.
  pub polls_drain :
      (es : List Event) (s s' : Store) (page : List Record)
      → All IsWhole es
      → io.stops_after ≡ none
      → run json es fresh ≡ ok s
      → handle_egress_pending (some s) ≡ respond 200 (receipts page)
      → Acknowledged page s s'
      → waiting s'.records s'.order ≡ drop 10 (waiting s.records s.order)
  unfolding handle_egress_pending
  polls_drain es s s' page we w e polled a =
      let v = durable_after json es s we e in
      let queue = waiting s.records s.order in
      let first : page ≡ take 10 queue =
        sym (ap (λ (x : Response). rows_of x.body) polled) ∙ pending_records-waiting 10 s in
      let whole : queue ≡ page ++ drop 10 queue =
        sym (take-append-drop 10 queue) ∙ ap (λ x. x ++ drop 10 queue) (sym first) in
      drained page (drop 10 queue) s s' w v whole
        (subst KeysDiffer whole
          (waiting-KeysDiffer s.records s.order v.rows (history-IsIndexed json es s e).0.distinct))
        a
