-- ===== src/Egress/Emptied.antt =====
-- A bouncer that polls and acknowledges until nothing is pending, over a disk that works.
use void_protocol_oss.Base.{
  ℕ, zero, suc, ◌*◌, ◌≤◌, ◌≡◌, refl, sym, ap, ◌∙◌, inl, inr, true, false, ◌||◌, Option, some, List,
  [], ◌∷◌, ◌++◌, length, length-drop, take, drop, take-append-drop, All, Bool-cases, Option-cases,
  arith,
}
use mathlib.Core.Path.{subst}
use void_protocol_oss.Base.Bytes.{Bytes, bytes_eq}
use void_protocol_oss.Base.Dict.{bytes_Eq, lookup}
use void_protocol_oss.Receipt.Record.{Record, status_pending, key_of}
use void_protocol_oss.Receipt.Json.{Json}
use void_protocol_oss.Receipt.Store.{Store, StoreError, WriteIo, pending_records, ok}
use void_protocol_oss.Receipt.Store.Effect.{Rows, AreRows, mark-Effect}
use void_protocol_oss.Receipt.Store.Lands.{Marshals, Writes, mark_lands}
use void_protocol_oss.Receipt.Store.Pending.{waiting, pending_records-waiting}
use void_protocol_oss.Receipt.Store.Queue.{without, mark_dequeues}
use void_protocol_oss.Receipt.Store.Recovery.{IsDurable, Effect-IsDurable}
use void_protocol_oss.Receipt.Store.History.{
  Event, IsWhole, fresh, run, durable_after, history-IsIndexed,
}
use void_protocol_oss.Egress.{
  respond, receipts, acknowledged, answer_ack, egress_page_size, handle_egress_pending,
  handle_egress_ack,
}
use void_protocol_oss.Egress.Drain.{
  request_of, Acknowledged, KeysDiffer, waiting-KeysDiffer, first_leaves,
}

-- The row of a waiting receipt, as the cache has it.
abbrev IsWaiting : Rows → Record → Type 0
IsWaiting m r = (lookup (key_of r) m ≡ some r) × (bytes_eq r.dispatch_status status_pending ≡ true)

waiting-IsWaiting : (m : Rows) (ks : List Bytes) → AreRows m → All (IsWaiting m) (waiting m ks)
unfolding waiting
waiting-IsWaiting m [] rows = tt
waiting-IsWaiting m (k ∷ ks) rows = elim (Option-cases (lookup k m)) [
  | inl e ↦ rw (waiting, e) (waiting-IsWaiting m ks rows)
  | inr (r, e) ↦
      let keyed = (rows k r e).keyed in
      rw (waiting, e)
        (elim (Bool-cases (bytes_eq r.dispatch_status status_pending)) [
          | inr b ↦ rw b (waiting-IsWaiting m ks rows)
          | inl b ↦ rw b ((ap (λ x. lookup x m) keyed ∙ e, b), waiting-IsWaiting m ks rows)
        ])
]

-- Both parts of the key are given, as those of the processor's rows are.
abbrev pub HasKey : Record → Type 0
HasKey r = bytes_eq r.payment_id [] || bytes_eq r.settlement_tx_hash [] ≡ false

KeysDiffer-drop : (n : ℕ) (rs : List Record) → KeysDiffer rs → KeysDiffer (drop n rs)
KeysDiffer-drop zero rs d = d
KeysDiffer-drop (suc n) [] d = tt
KeysDiffer-drop (suc n) (r ∷ rs) d = KeysDiffer-drop n rs d.1

module _ (json : Json) (marshals : Marshals json) (io : WriteIo) (writes : Writes io) where
  -- A store that works, and the receipts that wait in it.
  record IsServing (s : Store) (queue : List Record) : Type 0 where
    durable : IsDurable json s
    opened : s.is_open ≡ true
    waits : waiting s.records s.order ≡ queue
    differ : KeysDiffer queue
    keyed : All HasKey queue

  ack_first :
      (r : Record) (rs : List Record) (s : Store)
      → IsServing s (r ∷ rs)
      → (s₁ : Store) × (handle_egress_ack json io (some (request_of r)) (some s)
          ≡ (some s₁, respond 200 acknowledged))
        × IsServing s₁ rs
  unfolding handle_egress_ack
  ack_first r rs s v =
      let here =
        subst (All (IsWaiting s.records)) v.waits
          (waiting-IsWaiting s.records s.order v.durable.rows) in
      let row = v.durable.rows (key_of r) r here.0.0 in
      let (s₁, m, still) =
        mark_lands json marshals io writes r.payment_id r.settlement_tx_hash r s v.opened here.0.0
          row here.0.1 in
      let has_key = v.keyed.0 in
      (
        s₁,
        rw has_key (ap answer_ack m),
        record {
          durable =
              subst (λ (x : Store × Option StoreError). IsDurable json x.0) m
                (Effect-IsDurable json v.durable (
                  mark-Effect json io r.payment_id r.settlement_tx_hash s writes.whole
                    v.durable.rows));
          opened = still;
          waits =
              mark_dequeues json io r.payment_id r.settlement_tx_hash s s₁ v.durable.rows m
              ∙ ap (without (key_of r)) v.waits
              ∙ first_leaves json io r rs v.differ.0;
          differ = v.differ.1;
          keyed = v.keyed.1;
        },
      )

  ack_page :
      (page rest : List Record) (s : Store)
      → IsServing s (page ++ rest)
      → (s' : Store) × Acknowledged json io page s s' × IsServing s' rest
  ack_page [] rest s v = (s, refl, v)
  ack_page (r ∷ page) rest s v =
      let (s₁, a, v₁) = ack_first r (page ++ rest) s v in
      let (s', more, v') = ack_page page rest s₁ v₁ in (s', (s₁, a, more), v')

  -- A number of rounds: a poll, and then the acknowledgement of each receipt of its page.
  abbrev pub Rounds : ℕ → Store → Store → Type 0
  Rounds zero s s' = s' ≡ s
  Rounds (suc n) s s' =
      (s₁ : Store) × Acknowledged json io (pending_records egress_page_size s) s s₁ × Rounds n s₁ s'

  queue_runs_out :
      (n : ℕ) (s : Store) (queue : List Record)
      → length queue ≤ 10 * n
      → IsServing s queue
      → (s' : Store) × Rounds n s s' × IsServing s' []
  queue_runs_out zero s [] h v = (s, refl, v)
  queue_runs_out zero s (r ∷ queue) h v = absurd (omega (arith, h))
  queue_runs_out (suc n) s queue h v =
      let page : pending_records egress_page_size s ≡ take 10 queue =
        pending_records-waiting 10 s ∙ ap (take 10) v.waits in
      let (s₁, a, v₁) =
        ack_page (take 10 queue) (drop 10 queue) s
          (subst (IsServing s) (sym (take-append-drop 10 queue)) v) in
      let (s', more, v') =
        queue_runs_out n s₁ (drop 10 queue) (omega (arith, h, length-drop 10 queue)) v₁ in
      (s', (s₁, subst (λ x. Acknowledged json io x s s₁) (sym page) a, more), v')

  -- After any history without torn writes, over an open store whose pending rows have both parts of
  -- their keys, a disk that takes every write and an encoder that takes every row, a bouncer that
  -- polls and acknowledges each receipt of the page gets the answer 200 each time, and after as
  -- many rounds as ten receipts a round need, the pending endpoint answers with no receipt.
  pub bouncer_empties_queue :
      (es : List Event) (n : ℕ) (s : Store)
      → All IsWhole es
      → run json es fresh ≡ ok s
      → s.is_open ≡ true
      → All HasKey (waiting s.records s.order)
      → length (waiting s.records s.order) ≤ 10 * n
      → (s' : Store) × Rounds n s s' × (handle_egress_pending (some s') ≡ respond 200 (receipts []))
  unfolding handle_egress_pending
  bouncer_empties_queue es n s whole e opened keyed h =
      let durable = durable_after json es s whole e in
      let (s', rounds, v) = queue_runs_out n s (waiting s.records s.order) h (record {
        durable = durable;
        opened = opened;
        waits = refl;
        differ =
            waiting-KeysDiffer s.records s.order durable.rows
              (history-IsIndexed json es s e).0.distinct;
        keyed = keyed;
      }) in
      (
        s',
        rounds,
        ap (λ x. respond 200 (receipts x))
            (pending_records-waiting egress_page_size s' ∙ ap (take 10) v.waits),
      )
