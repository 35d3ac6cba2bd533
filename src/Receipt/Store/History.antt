-- ===== src/Receipt/Store/History.antt =====
-- Histories of the store: calls of Append and MarkDispatched, and restarts of the gateway.
use mathlib.Core.Path.{subst}
use void_protocol_oss.Base.{
  ◌≡◌, refl, sym, ◌∙◌, ◌⊎◌, inl, inr, true, some, none, Option, List, [], ◌∷◌, ◌++◌, All, length,
  ap, arith,
}
use void_protocol_oss.Base.Bytes.{Bytes}
use void_protocol_oss.Base.Dict.{bytes_Eq, lookup, lookup-insert_self}
use void_protocol_oss.Receipt.Record.{Record, IsStorable, key_of, default_status}
use void_protocol_oss.Receipt.Json.{Json}
use void_protocol_oss.Receipt.Store.{
  Store, StoreError, Table, WriteIo, LoadIo, Loaded, ok, err, append, mark_dispatched, load_table,
  load_records, new_store, empty_table, write_line_locked, write_out, count,
}
use void_protocol_oss.Receipt.Store.Effect.{Effect, append-Effect, mark-Effect}
use void_protocol_oss.Receipt.Store.Index.{
  IsIndexed, append-IsIndexed, mark-IsIndexed, new_store-IsIndexed,
}
use void_protocol_oss.Receipt.Store.Recovery.{
  Extends, Covers, IsDurable, IsExact, Effect-IsDurable, Effect-Covers, Effect-IsExact, Covers-refl,
  Covers-trans,
}

pub data Event : Type 0 where
  appends : WriteIo → Record → Event
  marks : WriteIo → Bytes → Bytes → Event
  restarts : LoadIo → Event

-- No write is torn, every load's calls succeed, and the rows are the gateway's.
abbrev pub IsWhole : Event → Type 0
IsWhole (appends io r) = (io.stops_after ≡ none) × IsStorable r
IsWhole (marks io p h) = io.stops_after ≡ none
IsWhole (restarts io) =
    (io.opened ≡ true) × (io.rewound ≡ true) × (io.scanned ≡ true) × (io.seeked_end ≡ true)

-- And every sync succeeds.
abbrev pub IsClean : Event → Type 0
IsClean (appends io r) = (io.stops_after ≡ none) × IsStorable r × (io.synced ≡ true)
IsClean (marks io p h) = (io.stops_after ≡ none) × (io.synced ≡ true)
IsClean (restarts io) = IsWhole (restarts io)

abbrev pub fresh : Store
fresh = record { content = []; is_open = true; table = empty_table }

pub eq_of_ok : {A : Type 0} {a b : A} → ok a ≡ ok b → a ≡ b
eq_of_ok h = cc

Loaded-cases :
    {A : Type 0} (x : Loaded A) → ((e : StoreError) × (x ≡ err e)) ⊎ ((t : A) × (x ≡ ok t))
Loaded-cases (err e) = inl (e, refl)
Loaded-cases (ok t) = inr (t, refl)

abbrev pub then_run : (Store → Loaded Store) → Loaded Store → Loaded Store
then_run f (ok s) = f s
then_run f (err e) = err e

module _ (json : Json) where
  -- A restart drops the cache and opens the file again.
  unfoldable pub step : Event → Store → Loaded Store
  step (appends io r) s = ok (append json io r s).0
  step (marks io p h) s = ok (mark_dispatched json io p h s).0
  step (restarts io) s = new_store json io s.content

  unfoldable pub run : List Event → Store → Loaded Store
  run [] s = ok s
  run (e ∷ es) s = then_run (run es) (step e s)

  pub restart_loads :
      (io : LoadIo) (s : Store) (t : Table)
      → IsWhole (restarts io)
      → load_table json s.content ≡ ok t
      → new_store json io s.content ≡ ok (record { content = s.content; is_open = true; table = t })
  unfolding new_store load_records
  restart_loads io s t (a, b, c, d) h = rw (a, b, h, c, d) refl

  step-IsDurable :
      (e : Event) (s : Store)
      → IsWhole e
      → IsDurable json s
      → (s' : Store) × (step e s ≡ ok s') × IsDurable json s' × Covers s.records s'.records
  unfolding step
  step-IsDurable (appends io r) s (w, st) v =
      let x = append-Effect json io r s w st in
      (_, refl, Effect-IsDurable json v x, Effect-Covers json x)
  step-IsDurable (marks io p h) s w v =
      let x = mark-Effect json io p h s w v.rows in
      (_, refl, Effect-IsDurable json v x, Effect-Covers json x)
  step-IsDurable (restarts io) s w v = (
    record { content = s.content; is_open = true; table = v.disk },
    restart_loads io s v.disk w v.loads,
    record {
      ended = v.ended;
      disk = v.disk;
      loads = v.loads;
      rows = v.disk_rows;
      disk_rows = v.disk_rows;
      covers = Covers-refl v.disk.records;
    },
    v.covers,
  )

  pub run-IsDurable :
      (es : List Event) (s : Store)
      → All IsWhole es
      → IsDurable json s
      → (s' : Store) × (run es s ≡ ok s') × IsDurable json s' × Covers s.records s'.records
  unfolding run
  run-IsDurable [] s w v = (s, refl, v, Covers-refl s.records)
  run-IsDurable (e ∷ es) s (w, ws) v =
      let (a, ea, va, ca) = step-IsDurable e s w v in
      let (b, eb, vb, cb) = run-IsDurable es a ws va in
      (b, rw ea eb, vb, Covers-trans s.records a.records b.records ca cb)

  pub run-append :
      (xs ys : List Event) (a b c : Store)
      → run xs a ≡ ok b
      → run ys b ≡ ok c
      → run (xs ++ ys) a ≡ ok c
  unfolding run
  run-append [] ys a b c e f = subst (λ s. run ys s ≡ ok c) (sym (eq_of_ok e)) f
  run-append (x ∷ xs) ys a b c e f = elim (Loaded-cases (step x a)) [
    | inl (er, l) ↦ absurd (ground arith)
    | inr (s, l) ↦ ap (then_run (run (xs ++ ys))) l ∙ run-append xs ys s b c (ground arith) f
  ]

  fresh-IsDurable : IsDurable json fresh
  unfolding load_table lookup
  fresh-IsDurable = record {
    ended = inl refl;
    disk = empty_table;
    loads = refl;
    rows = λ k r e. cc;
    disk_rows = λ k r e. cc;
    covers = Covers-refl [];
  }

  pub fresh-IsExact : IsExact json fresh
  unfolding load_table lookup
  fresh-IsExact = record { ended = inl refl; loads = refl; rows = λ k r e. cc }

  append_stores :
      (io : WriteIo) (r : Record) (s s' : Store)
      → append json io r s ≡ (s', none)
      → lookup (key_of r) s'.records ≡ some (default_status r)
  unfolding append write_line_locked write_out
  append_stores io r s s' e =
      ground (arith, lookup-insert_self (key_of r) (default_status r) s.records)

  pub durable_after :
      (es : List Event) (s : Store) → All IsWhole es → run es fresh ≡ ok s → IsDurable json s
  durable_after es s w e =
      let (s₁, e₁, v, _) = run-IsDurable es fresh w fresh-IsDurable in
      subst (IsDurable json) (eq_of_ok (sym e₁ ∙ e)) v

  -- A receipt whose row fits its types and the file's lines, and whose Append wrote its whole line
  -- and returned nil, is never lost. Whatever history of appends of such rows, acknowledgements and
  -- restarts came before, with whole writes, system calls of the loads that succeed and syncs that
  -- may fail, and whatever such history comes after, every later restart succeeds, and the row is
  -- still there under its key: as it was written, or with its status DISPATCHED.
  pub no_lost_settlement :
      (before after : List Event) (io : WriteIo) (r : Record) (s s' : Store)
      → All IsWhole before
      → All IsWhole after
      → IsWhole (appends io r)
      → run before fresh ≡ ok s
      → append json io r s ≡ (s', none)
      → (s'' : Store) × (run after s' ≡ ok s'')
        × ((r' : Record) × (lookup (key_of r) s''.records ≡ some r')
            × Extends (default_status r) r')
  no_lost_settlement before after io r s s' wb wa (w, st) eb ea =
      let v = durable_after before s wb eb in
      let v' =
        subst (λ (x : Store × Option StoreError). IsDurable json x.0) ea
          (Effect-IsDurable json v (append-Effect json io r s w st)) in
      let (s'', e, _, covers) = run-IsDurable after s' wa v' in
      (s'', e, covers (key_of r) (default_status r) (append_stores io r s s' ea))

  step-IsExact :
      (e : Event) (s : Store)
      → IsClean e
      → IsExact json s
      → (s' : Store) × (step e s ≡ ok s') × IsExact json s'
  unfolding step
  step-IsExact (appends io r) s (w, st, y) v = (
    _,
    refl,
    Effect-IsExact json v
        (subst (λ b. Effect json b s (append json io r s).0) y (append-Effect json io r s w st)),
  )
  step-IsExact (marks io p h) s (w, y) v = (
    _,
    refl,
    Effect-IsExact json v (
        subst (λ b. Effect json b s (mark_dispatched json io p h s).0) y
          (mark-Effect json io p h s w v.rows)),
  )
  step-IsExact (restarts io) s w v = (
    record { content = s.content; is_open = true; table = s.table },
    restart_loads io s s.table w v.loads,
    record { ended = v.ended; loads = v.loads; rows = v.rows },
  )

  pub run-IsExact :
      (es : List Event) (s : Store)
      → All IsClean es
      → IsExact json s
      → (s' : Store) × (run es s ≡ ok s') × IsExact json s'
  unfolding run
  run-IsExact [] s w v = (s, refl, v)
  run-IsExact (e ∷ es) s (w, ws) v =
      let (a, ea, va) = step-IsExact e s w v in
      let (b, eb, vb) = run-IsExact es a ws va in (b, rw ea eb, vb)

  step-IsIndexed :
      (e : Event) (s s' : Store) → IsIndexed s.table → step e s ≡ ok s' → IsIndexed s'.table
  unfolding step
  step-IsIndexed (appends io r) s s' v e =
      subst (λ (x : Store). IsIndexed x.table) (eq_of_ok e) (append-IsIndexed json io r s v)
  step-IsIndexed (marks io p h) s s' v e =
      subst (λ (x : Store). IsIndexed x.table) (eq_of_ok e) (mark-IsIndexed json io p h s v)
  step-IsIndexed (restarts io) s s' v e = new_store-IsIndexed json io s.content s' e

  run-IsIndexed :
      (es : List Event) (s s' : Store) → IsIndexed s.table → run es s ≡ ok s' → IsIndexed s'.table
  unfolding run
  run-IsIndexed [] s s' v e = subst (λ (x : Store). IsIndexed x.table) (eq_of_ok e) v
  run-IsIndexed (ev ∷ es) s s' v e = elim (Loaded-cases (step ev s)) [
    | inl (er, x) ↦ absurd (ground arith)
    | inr (a, x) ↦ run-IsIndexed es a s' (step-IsIndexed ev s a v x) (ground arith)
  ]

  -- After any history whatever, torn writes and failing syncs among it, each key of `order` has
  -- its row, no key stands twice in it, and Count is the number of its keys.
  pub history-IsIndexed :
      (es : List Event) (s : Store)
      → run es fresh ≡ ok s
      → IsIndexed s.table × (count s ≡ length s.order)
  unfolding count
  history-IsIndexed es s e =
      let v = run-IsIndexed es fresh s (record { listed = tt; distinct = tt; sized = refl }) e in
      (v, v.sized)
