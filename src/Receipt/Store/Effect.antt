-- ===== src/Receipt/Store/Effect.antt =====
-- What one call of the store does to the file and to the cache, when no write is torn.
use void_protocol_oss.Base.{
  ◌≤◌, ◌≡◌, refl, ◌⊎◌, inl, inr, Bool, false, some, none, Option, List, [], ◌∷◌, ◌++◌, length,
  Bool-cases, Option-cases, if◌then◌else◌, arith,
}
use void_protocol_oss.Base.Bytes.{Bytes, bytes_eq}
use void_protocol_oss.Base.Dict.{bytes_Eq, lookup, insert}
use void_protocol_oss.Receipt.Record.{
  Record, IsStorable, IsAscii, key_of, default_status, dedup_key, status_pending, status_dispatched,
}
use void_protocol_oss.Receipt.Json.{Json, newline}
use void_protocol_oss.Receipt.Store.{
  Store, StoreError, marshal_failed, write_failed, sync_failed, Table, WriteIo, observe,
  write_line_locked, append, mark_dispatched,
}

abbrev pub Rows : Type 0
Rows = List (Bytes × Record)

abbrev pub dispatched : Record → Record
dispatched r = record r { dispatch_status = status_dispatched }

-- What the store keeps under a key: a row of that key, with its status filled in.
pub record IsRow (key : Bytes) (r : Record) : Type 0 where
  pub keyed : key_of r ≡ key
  pub filled : default_status r ≡ r
  pub storable : IsStorable r

abbrev pub AreRows : Rows → Type 0
AreRows m = (key : Bytes) (r : Record) → lookup key m ≡ some r → IsRow key r

-- A new key, or the dispatched form of the row that the cache has.
abbrev pub Advances : Record → Rows → Type 0
Advances r m =
    (lookup (key_of r) m ≡ none)
    ⊎ ((r₀ : Record) × (lookup (key_of r) m ≡ some r₀) × (r ≡ dispatched r₀))

module _ (json : Json) where
  -- Nothing, or one more line in the file, which the cache may or may not follow.
  pub data Effect (synced : Bool) (s s' : Store) : Type 0 where
    same : s' ≡ s → Effect synced s s'
    wrote :
        (r : Record) (l : Bytes) (t : Table)
        → json.marshal r ≡ some l
        → IsRow (key_of r) r
        → Advances r s.records
        → s' ≡ record s { content = s.content ++ (l ++ (newline ∷ [])); table = t }
        → ((synced ≡ false) × (t ≡ s.table)) ⊎ (t ≡ observe r s.table)
        → Effect synced s s'

  abbrev Landed : WriteIo → Record → Store → Type 0
  Landed io r s =
      (l : Bytes) × (o : Option StoreError) × (o ≡ (if io.synced then none else some sync_failed))
      × (json.marshal r ≡ some l)
      × (write_line_locked json io r s
          ≡ (record s { content = s.content ++ (l ++ (newline ∷ [])) }, o))

  unsynced :
      (io : WriteIo) (e : StoreError)
      → some e ≡ (if io.synced then none else some sync_failed)
      → io.synced ≡ false
  unsynced io e h = ground arith

  write_cases :
      (io : WriteIo) (r : Record) (s : Store)
      → io.stops_after ≡ none
      → ((e : StoreError) × (write_line_locked json io r s ≡ (s, some e))) ⊎ Landed io r s
  unfolding write_line_locked
  write_cases io r s whole = elim (Option-cases (json.marshal r)) [
    | inl e ↦ inl (marshal_failed, ground arith)
    | inr (l, e) ↦ elim (Bool-cases s.is_open) [
      | inl o ↦ inr (l, _, refl, e, ground arith)
      | inr c ↦ inl (write_failed, ground arith)
    ]
  ]

  default_status_idem : (r : Record) → default_status (default_status r) ≡ default_status r
  unfolding default_status
  default_status_idem r = ground arith

  key_of-default_status : (r : Record) → key_of (default_status r) ≡ key_of r
  unfolding default_status
  key_of-default_status r = ground arith

  -- The cache after an append that landed is what the load makes of the line.
  append-observe :
      (r : Record) (t : Table)
      → lookup (key_of r) t.records ≡ none
      → record {
        records = insert (key_of r) (default_status r) t.records;
        order = t.order ++ (key_of r ∷ []);
      }
        ≡ observe (default_status r) t
  unfolding observe
  append-observe r t h = rw (default_status_idem r, key_of-default_status r, h) refl

  status-IsStorable :
      (r : Record) (st : Bytes)
      → IsAscii st
      → length st ≤ 10
      → IsStorable r
      → IsStorable (record r { dispatch_status = st })
  status-IsStorable r st a h v = record {
    payment_id_ascii = v.payment_id_ascii;
    tx_hash_ascii = v.tx_hash_ascii;
    amount_ascii = v.amount_ascii;
    wallet_ascii = v.wallet_ascii;
    packet_c_hex_ascii = v.packet_c_hex_ascii;
    status_ascii = a;
    sat_id_u32 = v.sat_id_u32;
    asset_id_u16 = v.asset_id_u16;
    block_number_u64 = v.block_number_u64;
    ts_ms_i64 = v.ts_ms_i64;
    text_fits = v.text_fits;
    status_fits = h;
  }

  pub default_status-IsStorable : (r : Record) → IsStorable r → IsStorable (default_status r)
  unfolding default_status
  default_status-IsStorable r v = elim (Bool-cases (bytes_eq r.dispatch_status [])) [
    | inl e ↦ rw e (status-IsStorable r status_pending (omega arith) (omega arith) v)
    | inr e ↦ rw e v
  ]

  default_status-IsRow :
      (r : Record) → IsStorable r → IsRow (key_of (default_status r)) (default_status r)
  default_status-IsRow r s = record {
    keyed = refl;
    filled = default_status_idem r;
    storable = default_status-IsStorable r s;
  }

  pub append-Effect :
      (io : WriteIo) (r : Record) (s : Store)
      → io.stops_after ≡ none
      → IsStorable r
      → Effect io.synced s (append json io r s).0
  unfolding append
  append-Effect io r s whole st = elim (Option-cases (lookup (key_of r) s.records)) [
    | inr (r₀, e) ↦ same (rw (append, e) refl)
    | inl e ↦ elim (write_cases io (default_status r) s whole) [
      | inl (er, w) ↦ same (rw (append, e, w) refl)
      | inr (l, some er, y, m, w) ↦
          wrote (default_status r) l s.table m (default_status-IsRow r st)
            (inl (rw (key_of-default_status r) e)) (rw (append, e, w) refl)
            (inl (unsynced io er y, refl))
      | inr (l, none, y, m, w) ↦
          wrote (default_status r) l (observe (default_status r) s.table) m
            (default_status-IsRow r st) (inl (rw (key_of-default_status r) e))
            (rw (append, e, w, ← append-observe r s.table e) refl) (inr refl)
    ]
  ]

  pub dispatched-IsRow :
      (key : Bytes) (r : Record) → IsRow key r → IsRow (key_of (dispatched r)) (dispatched r)
  unfolding default_status
  dispatched-IsRow key r v = record {
    keyed = refl;
    filled = refl;
    storable = status-IsStorable r status_dispatched (omega arith) (omega arith) v.storable;
  }

  mark-observe :
      (key : Bytes) (r : Record) (t : Table)
      → lookup key t.records ≡ some r
      → key_of r ≡ key
      → record { records = insert key (dispatched r) t.records; order = t.order }
        ≡ observe (dispatched r) t
  unfolding observe default_status
  mark-observe key r t h k = rw (k, h) refl

  pub mark-Effect :
      (io : WriteIo) (payment_id tx_hash : Bytes) (s : Store)
      → io.stops_after ≡ none
      → AreRows s.records
      → Effect io.synced s (mark_dispatched json io payment_id tx_hash s).0
  unfolding mark_dispatched
  mark-Effect io p h s whole rows = elim (Option-cases (lookup (dedup_key p h) s.records)) [
    | inl e ↦ same (rw e refl)
    | inr (r, e) ↦ elim (Bool-cases (bytes_eq r.dispatch_status status_dispatched)) [
      | inl d ↦ same (rw (mark_dispatched, e, d) refl)
      | inr d ↦ elim (write_cases io (dispatched r) s whole) [
        | inl (er, w) ↦ same (rw (mark_dispatched, e, d, w) refl)
        | inr (l, some er, y, m, w) ↦
            let row = rows (dedup_key p h) r e in
            wrote (dispatched r) l s.table m (dispatched-IsRow _ r row)
              (inr (r, rw (row.keyed) e, refl)) (rw (mark_dispatched, e, d, w) refl)
              (inl (unsynced io er y, refl))
        | inr (l, none, y, m, w) ↦
            let row = rows (dedup_key p h) r e in
            wrote (dispatched r) l (observe (dispatched r) s.table) m (dispatched-IsRow _ r row)
              (inr (r, rw (row.keyed) e, refl))
              (rw (mark_dispatched, e, d, w, ← mark-observe _ r s.table e row.keyed) refl)
              (inr refl)
      ]
    ]
  ]
