-- ===== src/Receipt/Store/Lands.antt =====
-- The calls of the store that succeed: an open file, and a system that takes every write.
use void_protocol_oss.Base.{
  ◌≡◌, refl, ap, true, false, Option, none, some, [], ◌∷◌, ◌++◌, is_some, arith,
}
use void_protocol_oss.Base.Bytes.{Bytes, bytes_eq, bytes_eq→eq}
use void_protocol_oss.Base.Dict.{bytes_Eq, lookup}
use void_protocol_oss.Receipt.Record.{
  Record, IsStorable, default_status, key_of, dedup_key, status_pending, status_dispatched,
}
use void_protocol_oss.Receipt.Json.{Json, newline}
use void_protocol_oss.Receipt.Store.{
  Store, StoreError, WriteIo, update_row, append, mark_dispatched, write_line_locked, write_out,
}
use void_protocol_oss.Receipt.Store.Effect.{
  default_status-IsStorable, IsRow, dispatched, dispatched-IsRow,
}

-- `json.Marshal` has no value of a `Record` that it refuses.
pub record Marshals (json : Json) : Type 0 where
  pub total : (r : Record) → IsStorable r → (l : Bytes) × (json.marshal r ≡ some l)

-- A write that reaches the file whole, and is synced.
pub record Writes (io : WriteIo) : Type 0 where
  pub whole : io.stops_after ≡ none
  pub synced : io.synced ≡ true

module _ (json : Json) (marshals : Marshals json) (w : WriteIo) (writes : Writes w) where
  abbrev written : Bytes → Store → Store × Option StoreError
  written l s = (record s { content = s.content ++ (l ++ (newline ∷ [])) }, none)

  write_lands :
      (r : Record) (l : Bytes) (s : Store)
      → s.is_open ≡ true
      → json.marshal r ≡ some l
      → write_line_locked json w r s ≡ written l s
  unfolding write_line_locked write_out
  write_lands r l s opened e =
      let whole = writes.whole in
      let synced = writes.synced in
      rw (write_line_locked, e, write_out, whole, synced) (ground (arith, opened))

  pub append_lands :
      (r : Record) (s : Store)
      → s.is_open ≡ true
      → is_some (lookup (key_of r) s.records) ≡ false
      → IsStorable r
      → ((append json w r s).0.is_open ≡ true) × ((append json w r s).1 ≡ none)
  unfolding append
  append_lands r s opened fresh v =
      let (l, e) = marshals.total (default_status r) (default_status-IsStorable json r v) in
      let landed = write_lands (default_status r) l s opened e in rw (fresh, landed) (opened, refl)

  still_pending :
      (r : Record)
      → bytes_eq r.dispatch_status status_pending ≡ true
      → bytes_eq r.dispatch_status status_dispatched ≡ false
  still_pending r p =
      ap (λ x. bytes_eq x status_dispatched) (bytes_eq→eq r.dispatch_status status_pending p)

  -- The acknowledgement of a pending row.
  pub mark_lands :
      (p h : Bytes) (r : Record) (s : Store)
      → s.is_open ≡ true
      → lookup (dedup_key p h) s.records ≡ some r
      → IsRow (dedup_key p h) r
      → bytes_eq r.dispatch_status status_pending ≡ true
      → (s' : Store) × (mark_dispatched json w p h s ≡ (s', none)) × (s'.is_open ≡ true)
  unfolding mark_dispatched
  mark_lands p h r s opened e row b =
      let (l, m) =
        marshals.total (dispatched r) (dispatched-IsRow json (dedup_key p h) r row).storable in
      let landed = write_lands (dispatched r) l s opened m in
      let open_status = still_pending r b in
      (
        update_row (dedup_key p h) (dispatched r) (written l s).0,
        rw (mark_dispatched, e, open_status, landed) refl,
        opened,
      )
