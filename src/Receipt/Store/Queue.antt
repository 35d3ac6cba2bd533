-- ===== src/Receipt/Store/Queue.antt =====
-- What Append and MarkDispatched do to the queue.
use void_protocol_oss.Base.{
  ◌≡◌, refl, sym, ◌∙◌, ap, inl, inr, false, some, none, Option, List, [], ◌∷◌, ◌++◌, All,
  Bool-cases, Option-cases, if◌then◌else◌, arith,
}
use void_protocol_oss.Base.Bytes.{Bytes, bytes_eq, bytes_eq→eq, bytes_eq_iff}
use void_protocol_oss.Base.Dict.{bytes_Eq, lookup, insert, lookup-insert, lookup-insert_self}
use void_protocol_oss.Receipt.Record.{
  Record, key_of, default_status, dedup_key, status_pending, status_dispatched,
}
use void_protocol_oss.Receipt.Json.{Json}
use void_protocol_oss.Receipt.Store.{Store, StoreError, WriteIo, append, mark_dispatched}
use void_protocol_oss.Receipt.Store.Effect.{Rows, AreRows, dispatched}
use void_protocol_oss.Receipt.Store.Index.{IsIndexed, IsListed}
use void_protocol_oss.Receipt.Store.Calls.{append_cases, mark_cases, added, updated}
use void_protocol_oss.Receipt.Store.Pending.{waiting, enqueue}

-- The rows of other keys.
unfoldable pub without : Bytes → List Record → List Record
without k [] = []
without k (r ∷ rs) = let rest = without k rs in if bytes_eq (key_of r) k then rest else r ∷ rest

not_pending :
    (d : Record)
    → d.dispatch_status ≡ status_dispatched
    → bytes_eq d.dispatch_status status_pending ≡ false
not_pending d h = rw h refl

-- Where one key's row is dispatched and the others are as they were, the queue loses that key.
waiting-without :
    (k : Bytes) (d : Record) (m m' : Rows) (ks : List Bytes)
    → AreRows m
    → d.dispatch_status ≡ status_dispatched
    → ((j : Bytes) → lookup j m' ≡ (if bytes_eq k j then some d else lookup j m))
    → waiting m' ks ≡ without k (waiting m ks)
unfolding waiting without
waiting-without k d m m' [] rows hd h = refl
waiting-without k d m m' (j ∷ ks) rows hd h = elim (Option-cases (lookup j m)) [
  | inl e ↦ ground (arith, h j, e, not_pending d hd, waiting-without k d m m' ks rows hd h)
  | inr (r, e) ↦ ground (
    arith,
    h j,
    e,
    not_pending d hd,
    bytes_eq_iff k j,
    bytes_eq_iff (key_of r) k,
    (rows j r e).keyed,
    waiting-without k d m m' ks rows hd h,
  )
]

-- Where a new row joins, it joins the end of the queue.
waiting-insert :
    (k : Bytes) (r : Record) (m : Rows) (ks : List Bytes)
    → All (IsListed m) ks
    → lookup k m ≡ none
    → waiting (insert k r m) ks ≡ waiting m ks
unfolding waiting
waiting-insert k r m [] h e = refl
waiting-insert k r m (j ∷ ks) h e = ground (
  arith,
  lookup-insert k j r m,
  bytes_eq_iff k j,
  ap (λ x. lookup x m) {x = k} {y = j},
  waiting-insert k r m ks h.1 e,
)

waiting-append :
    (m : Rows) (ks : List Bytes) (k : Bytes)
    → waiting m (ks ++ (k ∷ [])) ≡ waiting m ks ++ enqueue (lookup k m) []
unfolding waiting
waiting-append m [] k = refl
waiting-append m (j ∷ ks) k = ground (arith, waiting-append m ks k)

lookup_idle :
    (k : Bytes) (r : Record) (m : Rows) (j : Bytes)
    → lookup k m ≡ some r
    → lookup j m ≡ (if bytes_eq k j then some r else lookup j m)
lookup_idle k r m j e = elim (Bool-cases (bytes_eq k j)) [
  | inl b ↦ ground (arith, ap (λ x. lookup x m) (bytes_eq→eq k j b))
  | inr b ↦ rw b refl
]

module _ (json : Json) (io : WriteIo) where
  -- A successful Append puts its row, with the status filled in, at the end of the queue if that
  -- status is PENDING, and leaves the queue as it is otherwise.
  pub append_enqueues :
      (r : Record) (s s' : Store)
      → IsIndexed s.table
      → append json io r s ≡ (s', none)
      → waiting s'.records s'.order
        ≡ waiting s.records s.order ++ enqueue (some (default_status r)) []
  append_enqueues r s s' v e = elim (append_cases json io r s) [
    | inl (_, (er, x)) ↦ absurd (cc)
    | inr (n, x) ↦
        let t : s'.table ≡ added (key_of r) (default_status r) s.table =
          sym (ap (λ (y : Store × Option StoreError). y.0.table) e) ∙ x in
        rw (
          t,
          waiting-append (insert (key_of r) (default_status r) s.records) s.order (key_of r),
          waiting-insert (key_of r) (default_status r) s.records s.order v.listed n,
          lookup-insert_self (key_of r) (default_status r) s.records,
        )
  ]

  -- After a MarkDispatched that returned nil the queue is the one before without the rows of that
  -- key: the others keep their rows and their order. A second acknowledgement changes nothing.
  pub mark_dequeues :
      (p h : Bytes) (s s' : Store)
      → AreRows s.records
      → mark_dispatched json io p h s ≡ (s', none)
      → waiting s'.records s'.order ≡ without (dedup_key p h) (waiting s.records s.order)
  mark_dequeues p h s s' rows e = elim (mark_cases json io p h s) [
    | inl (_, (er, x)) ↦ absurd (cc)
    | inr (r, l, inl (d, x)) ↦
        let t : s'.table ≡ s.table =
          sym (ap (λ (y : Store × Option StoreError). y.0.table) e) ∙ x in
        rw t (
          waiting-without (dedup_key p h) r s.records s.records s.order rows d
            (λ j. lookup_idle (dedup_key p h) r s.records j l))
    | inr (r, l, inr x) ↦
        let t : s'.table ≡ updated (dedup_key p h) (dispatched r) s.table =
          sym (ap (λ (y : Store × Option StoreError). y.0.table) e) ∙ x in
        rw t (
          waiting-without (dedup_key p h) (dispatched r) s.records
            (insert (dedup_key p h) (dispatched r) s.records) s.order rows refl
            (λ j. lookup-insert (dedup_key p h) j (dispatched r) s.records))
  ]
