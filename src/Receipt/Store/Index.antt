-- ===== src/Receipt/Store/Index.antt =====
-- `records` and `order` stay in step, whatever the operating system does.
use void_protocol_oss.Base.{
  ℕ, ◌+◌, ◌≡◌, refl, ◌⊎◌, inl, inr, true, false, some, none, List, [], ◌∷◌, ◌++◌, length,
  length-append, All, All-append, is_some, Option-cases, arith,
}
use mathlib.Core.Path.{subst}
use void_protocol_oss.Base.Bytes.{Bytes, bytes_eq, bytes_eq_iff, bytes_eq_refl}
use void_protocol_oss.Base.Dict.{bytes_Eq, lookup, insert, lookup-insert, length-insert}
use void_protocol_oss.Receipt.Record.{Record, key_of, default_status, dedup_key}
use void_protocol_oss.Receipt.Json.{Json}
use void_protocol_oss.Receipt.Store.{
  Store, StoreError, drop_cr, Table, WriteIo, LoadIo, Loaded, ok, err, append, mark_dispatched,
  observe, load_lines, load_table, load_records, new_store, empty_table, raw_lines,
}
use void_protocol_oss.Receipt.Store.Effect.{Rows, dispatched}
use void_protocol_oss.Receipt.Store.Calls.{append_cases, mark_cases}

abbrev pub IsListed : Rows → Bytes → Type 0
IsListed m k = is_some (lookup k m) ≡ true

abbrev pub AreDistinct : List Bytes → Type 0
AreDistinct [] = Unit {0}
AreDistinct (k ∷ ks) = All (λ j. bytes_eq j k ≡ false) ks × AreDistinct ks

-- Each key of `order` has its row, no key stands twice, and there are no other rows.
pub record IsIndexed (t : Table) : Type 0 where
  pub listed : All (IsListed t.records) t.order
  pub distinct : AreDistinct t.order
  pub sized : length t.records ≡ length t.order

insert-IsListed :
    (k : Bytes) (r : Record) (m : Rows) (j : Bytes) → IsListed m j → IsListed (insert k r m) j
insert-IsListed k r m j h = rw (lookup-insert k j r m) (ground arith)

insert-All :
    (k : Bytes) (r : Record) (m : Rows) (ks : List Bytes)
    → All (IsListed m) ks
    → All (IsListed (insert k r m)) ks
insert-All k r m [] h = tt
insert-All k r m (j ∷ ks) h = (insert-IsListed k r m j h.0, insert-All k r m ks h.1)

-- A key without a row is not in the order.
unlisted :
    (k : Bytes) (m : Rows) (ks : List Bytes)
    → lookup k m ≡ none
    → All (IsListed m) ks
    → All (λ j. bytes_eq k j ≡ false) ks
unlisted k m [] e h = tt
unlisted k m (j ∷ ks) e h = (ground (arith, bytes_eq_iff k j, h.0), unlisted k m ks e h.1)

AreDistinct-append :
    (ks : List Bytes) (k : Bytes)
    → AreDistinct ks
    → All (λ j. bytes_eq k j ≡ false) ks
    → AreDistinct (ks ++ (k ∷ []))
AreDistinct-append [] k d h = (tt, tt)
AreDistinct-append (j ∷ ks) k d h =
    (All-append _ ks (k ∷ []) d.0 (h.0, tt), AreDistinct-append ks k d.1 h.1)

add-IsIndexed :
    (k : Bytes) (r : Record) (t : Table)
    → IsIndexed t
    → lookup k t.records ≡ none
    → IsIndexed (record { records = insert k r t.records; order = t.order ++ (k ∷ []) })
add-IsIndexed k r t v e = record {
  listed =
      All-append _ t.order (k ∷ []) (insert-All k r t.records t.order v.listed)
        (rw (lookup-insert k k r t.records, bytes_eq_refl k) refl, tt);
  distinct = AreDistinct-append t.order k v.distinct (unlisted k t.records t.order e v.listed);
  sized = ground (arith, length-insert k r t.records, length-append t.order (k ∷ []), v.sized);
}

update-IsIndexed :
    (k : Bytes) (r r₀ : Record) (t : Table)
    → IsIndexed t
    → lookup k t.records ≡ some r₀
    → IsIndexed (record { records = insert k r t.records; order = t.order })
update-IsIndexed k r r₀ t v e = record {
  listed = insert-All k r t.records t.order v.listed;
  distinct = v.distinct;
  sized = ground (arith, length-insert k r t.records, v.sized);
}

observe-IsIndexed : (r : Record) (t : Table) → IsIndexed t → IsIndexed (observe r t)
unfolding observe
observe-IsIndexed r t v = elim (Option-cases (lookup (key_of (default_status r)) t.records)) [
  | inl e ↦ rw e (add-IsIndexed (key_of (default_status r)) (default_status r) t v e)
  | inr (r₀, e) ↦ rw e (update-IsIndexed (key_of (default_status r)) (default_status r) r₀ t v e)
]

module _ (json : Json) (io : WriteIo) where
  pub append-IsIndexed :
      (r : Record) (s : Store) → IsIndexed s.table → IsIndexed (append json io r s).0.table
  append-IsIndexed r s v = elim (append_cases json io r s) [
    | inl (e, _) ↦ rw e v
    | inr (n, e) ↦ rw e (add-IsIndexed (key_of r) (default_status r) s.table v n)
  ]

  pub mark-IsIndexed :
      (p h : Bytes) (s : Store)
      → IsIndexed s.table
      → IsIndexed (mark_dispatched json io p h s).0.table
  mark-IsIndexed p h s v = elim (mark_cases json io p h s) [
    | inl (e, _) ↦ rw e v
    | inr (r, l, inl (_, e)) ↦ rw e v
    | inr (r, l, inr e) ↦ rw e (update-IsIndexed (dedup_key p h) (dispatched r) r s.table v l)
  ]

Loaded-cases : (x : Loaded Table) → ((e : StoreError) × (x ≡ err e)) ⊎ ((t : Table) × (x ≡ ok t))
Loaded-cases (err e) = inl (e, refl)
Loaded-cases (ok t) = inr (t, refl)

module _ (json : Json) where
  load_lines-IsIndexed :
      (n : ℕ) (ls : List Bytes) (t t' : Table)
      → IsIndexed t
      → load_lines json n ls t ≡ ok t'
      → IsIndexed t'
  unfolding load_lines
  load_lines-IsIndexed n [] t t' v e = subst IsIndexed (ground arith) v
  load_lines-IsIndexed n (l ∷ ls) t t' v e = elim (Option-cases (json.unmarshal (drop_cr l))) [
    | inl u ↦ absurd (ground arith)
    | inr (r, u) ↦
        load_lines-IsIndexed (n + 1) ls (observe r t) t' (observe-IsIndexed r t v) (ground arith)
  ]

  pub new_store-IsIndexed :
      (io : LoadIo) (content : Bytes) (s : Store)
      → new_store json io content ≡ ok s
      → IsIndexed s.table
  unfolding new_store load_records load_table
  new_store-IsIndexed io content s e = elim (Loaded-cases (load_table json content)) [
    | inl (er, x) ↦ absurd (ground arith)
    | inr (t, x) ↦ subst IsIndexed (ground arith) (
        load_lines-IsIndexed 0 (raw_lines content) empty_table t
          (record { listed = tt; distinct = tt; sized = refl }) x)
  ]
