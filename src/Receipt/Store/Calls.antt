-- ===== src/Receipt/Store/Calls.antt =====
-- What Append and MarkDispatched return, and what they do to the cache, case by case.
use void_protocol_oss.Base.{
  ◌≡◌, refl, ◌⊎◌, inl, inr, some, none, Option, [], ◌∷◌, ◌++◌, Bool-cases, Option-cases, arith,
}
use void_protocol_oss.Base.Bytes.{Bytes, bytes_eq, bytes_eq→eq}
use void_protocol_oss.Base.Dict.{bytes_Eq, lookup, insert}
use void_protocol_oss.Receipt.Record.{Record, key_of, default_status, dedup_key, status_dispatched}
use void_protocol_oss.Receipt.Json.{Json}
use void_protocol_oss.Receipt.Store.{
  Store, StoreError, duplicate, unknown, add_row, update_row, Table, WriteIo, append,
  mark_dispatched, write_line_locked, write_out, on_written,
}
use void_protocol_oss.Receipt.Store.Effect.{dispatched}

on_written_cases :
    (f : Store → Store) (p : Store × Option StoreError)
    → ((e : StoreError) × (on_written f p ≡ (p.0, some e))) ⊎ (on_written f p ≡ (f p.0, none))
on_written_cases f (s, some e) = inl (e, refl)
on_written_cases f (s, none) = inr refl

abbrev pub added : Bytes → Record → Table → Table
added k r t = record { records = insert k r t.records; order = t.order ++ (k ∷ []) }

abbrev pub updated : Bytes → Record → Table → Table
updated k r t = record { records = insert k r t.records; order = t.order }

module _ (json : Json) (io : WriteIo) where
  write-table : (r : Record) (s : Store) → (write_line_locked json io r s).0.table ≡ s.table
  unfolding write_line_locked write_out
  write-table r s = ground arith

  -- Append leaves the cache and reports an error, or adds the row.
  pub append_cases :
      (r : Record) (s : Store)
      → (((append json io r s).0.table ≡ s.table)
          × ((e : StoreError) × ((append json io r s).1 ≡ some e)))
        ⊎ ((lookup (key_of r) s.records ≡ none)
            × ((append json io r s).0.table ≡ added (key_of r) (default_status r) s.table))
  unfolding append
  append_cases r s = elim (Option-cases (lookup (key_of r) s.records)) [
    | inr (r₀, e) ↦ inl (rw (append, e) refl, (duplicate, rw (append, e) refl))
    | inl e ↦
        let w = write-table (default_status r) s in
        elim (on_written_cases (add_row (key_of r) (default_status r))
          (write_line_locked json io (default_status r) s)) [
            | inl (er, x) ↦ inl (rw (append, e, x) w, (er, rw (append, e, x) refl))
            | inr x ↦ inr (e, rw (append, e, x, w) refl)
          ]
  ]

  -- MarkDispatched reports an error, finds the row dispatched, or dispatches it.
  pub mark_cases :
      (p h : Bytes) (s : Store)
      → (((mark_dispatched json io p h s).0.table ≡ s.table)
          × ((e : StoreError) × ((mark_dispatched json io p h s).1 ≡ some e)))
        ⊎ ((r : Record) × (lookup (dedup_key p h) s.records ≡ some r)
            × (((r.dispatch_status ≡ status_dispatched)
                  × ((mark_dispatched json io p h s).0.table ≡ s.table))
                ⊎ ((mark_dispatched json io p h s).0.table
                    ≡ updated (dedup_key p h) (dispatched r) s.table)))
  unfolding mark_dispatched
  mark_cases p h s = elim (Option-cases (lookup (dedup_key p h) s.records)) [
    | inl e ↦ inl (rw (mark_dispatched, e) refl, (unknown, rw (mark_dispatched, e) refl))
    | inr (r, e) ↦ elim (Bool-cases (bytes_eq r.dispatch_status status_dispatched)) [
      | inl d ↦ inr (r, e, inl (bytes_eq→eq _ _ d, rw (mark_dispatched, e, d) refl))
      | inr d ↦
          let w = write-table (dispatched r) s in
          elim (on_written_cases (update_row (dedup_key p h) (dispatched r))
            (write_line_locked json io (dispatched r) s)) [
              | inl (er, x) ↦
                  inl (rw (mark_dispatched, e, d, x) w, (er, rw (mark_dispatched, e, d, x) refl))
              | inr x ↦ inr (r, e, inr (rw (mark_dispatched, e, d, x, w) refl))
            ]
    ]
  ]
