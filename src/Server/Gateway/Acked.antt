-- ===== src/Server/Gateway/Acked.antt =====
-- A receipt that the bouncer has acknowledged, while the gateway goes on.
use void_protocol_oss.Base.{
  ℕ, ◌≡◌, ◌≢◌, refl, sym, ap, ◌∙◌, inl, inr, true, Option, none, some, List, [], ◌∷◌, All, All-take,
  eq_of_some, Bool-cases, Option-cases, arith,
}
use mathlib.Core.Path.{subst}
use void_protocol_oss.Base.Bytes.{Bytes, bytes_eq}
use void_protocol_oss.Base.Dict.{bytes_Eq, lookup, lookup-insert_self}
use void_protocol_oss.Receipt.Record.{Record, status_pending, status_dispatched, key_of, dedup_key}
use void_protocol_oss.Receipt.Json.{Json}
use void_protocol_oss.Receipt.Store.{Store, StoreError, WriteIo, mark_dispatched, pending_records}
use void_protocol_oss.Receipt.Store.Calls.{mark_cases}
use void_protocol_oss.Receipt.Store.Effect.{Rows, AreRows, dispatched}
use void_protocol_oss.Receipt.Store.Pending.{waiting, pending_records-waiting}
use void_protocol_oss.Receipt.Store.Recovery.{Covers}

-- The row of a key is in the cache, and dispatched.
abbrev pub IsDispatched : Bytes → Rows → Type 0
IsDispatched key m =
    (r : Record) × (lookup key m ≡ some r) × (r.dispatch_status ≡ status_dispatched)

abbrev pub OfOtherKey : Bytes → Record → Type 0
OfOtherKey key r = key_of r ≢ key

not_pending :
    (r r₀ : Record)
    → some r ≡ some r₀
    → r₀.dispatch_status ≡ status_dispatched
    → bytes_eq r.dispatch_status status_pending ≡ true
    → ⊥
not_pending r r₀ e d b =
    let same : r.dispatch_status ≡ status_dispatched =
      ap (λ (x : Record). x.dispatch_status) (eq_of_some e) ∙ d in
    let never : bytes_eq status_dispatched status_pending ≡ true =
      ap (λ x. bytes_eq x status_pending) (sym same) ∙ b in
    ground (arith, never)

waiting-OfOtherKey :
    (key : Bytes) (m : Rows) (ks : List Bytes)
    → AreRows m
    → IsDispatched key m
    → All (OfOtherKey key) (waiting m ks)
unfolding waiting
waiting-OfOtherKey key m [] rows d = tt
waiting-OfOtherKey key m (k ∷ ks) rows d = elim (Option-cases (lookup k m)) [
  | inl e ↦ rw (waiting, e) (waiting-OfOtherKey key m ks rows d)
  | inr (r, e) ↦
      rw (waiting, e)
        (elim (Bool-cases (bytes_eq r.dispatch_status status_pending)) [
          | inr b ↦ rw b (waiting-OfOtherKey key m ks rows d)
          | inl b ↦ rw b (
            λ same.
                not_pending r d.0
                  (sym e ∙ ap (λ x. lookup x m) (sym (rows k r e).keyed ∙ same) ∙ d.1) d.2 b,
            waiting-OfOtherKey key m ks rows d,
          )
        ])
]

-- No page has a row whose key is dispatched.
pub pending_records-OfOtherKey :
    (key : Bytes) (limit : ℕ) (s : Store)
    → AreRows s.records
    → IsDispatched key s.records
    → All (OfOtherKey key) (pending_records limit s)
pending_records-OfOtherKey key limit s rows d =
    subst (All (OfOtherKey key)) (sym (pending_records-waiting limit s)) (
      All-take (OfOtherKey key) limit (waiting s.records s.order)
        (waiting-OfOtherKey key s.records s.order rows d))

pub Covers-IsDispatched :
    (key : Bytes) (m m' : Rows) → Covers m m' → IsDispatched key m → IsDispatched key m'
Covers-IsDispatched key m m' c (r, e, d) =
    let (r', e', x) = c key r e in
    (
      r',
      e',
      elim x [
        | inl same ↦ ap (λ (y : Record). y.dispatch_status) same ∙ d
        | inr same ↦ ap (λ (y : Record). y.dispatch_status) same
      ],
    )

module _ (json : Json) where
  pub mark_dispatched-IsDispatched :
      (io : WriteIo) (p h : Bytes) (s s' : Store)
      → mark_dispatched json io p h s ≡ (s', none)
      → IsDispatched (dedup_key p h) s'.records
  mark_dispatched-IsDispatched io p h s s' e =
      let left : (mark_dispatched json io p h s).0.records ≡ s'.records =
        ap (λ (x : Store × Option StoreError). x.0.records) e in
      subst (IsDispatched (dedup_key p h)) left (elim (mark_cases json io p h s) [
        | inl (_, (er, x)) ↦
            absurd (ground (arith, sym x ∙ ap (λ (y : Store × Option StoreError). y.1) e))
        | inr (r, x, inl (d, t)) ↦ (r, ap (λ y. lookup (dedup_key p h) y.records) t ∙ x, d)
        | inr (r, x, inr t) ↦ (
          dispatched r,
          ap (λ y. lookup (dedup_key p h) y.records) t
              ∙ lookup-insert_self (dedup_key p h) (dispatched r) s.records,
          refl,
        )
      ])
