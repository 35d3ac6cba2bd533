-- ===== src/Receipt/Store.antt =====
-- gateway/internal/core/receipt/store.go: the append-only JSONL file with its cache.
-- The file is its bytes. What the operating system does on a call is an argument of the call.
pub mod Lines
pub mod Effect
pub mod Recovery
pub mod History
pub mod Pending
pub mod Queue
pub mod Index
pub mod Calls
pub mod Lands
pub mod Torn
use void_protocol_oss.Base.{
  ℕ, ◌+◌, ◌^◌, Bool, true, false, Option, none, some, List, [], ◌∷◌, ◌++◌, length, take, leb, ◌==◌,
  is_some, if◌then◌else◌,
}
use void_protocol_oss.Base.Bytes.{Bytes, bytes_eq}
use void_protocol_oss.Base.Dict.{bytes_Eq, lookup, insert}
use void_protocol_oss.Receipt.Record.{
  Record, status_pending, status_dispatched, dedup_key, key_of, default_status,
}
use void_protocol_oss.Receipt.Json.{Json, newline, carriage_return}

pub data StoreError : Type 0 where
  duplicate unknown marshal_failed write_failed sync_failed : StoreError
  open_failed seek_failed scan_failed line_too_long seek_end_failed : StoreError
  malformed : ℕ → StoreError

pub data Loaded {ℓ} (A : Type ℓ) : Type ℓ where
  ok : A → Loaded A
  err : StoreError → Loaded A

-- The cache: `records` and `order`.
pub record Table : Type 0 where
  pub records : List (Bytes × Record)
  pub order : List Bytes

abbrev pub empty_table : Table
empty_table = record { records = []; order = [] }

pub record Store : Type 0 where
  pub content : Bytes
  pub is_open : Bool
  pub table : Table
  pub open table use *

-- One `Write` and one `Sync`: a write may stop after some bytes, and then reports an error.
pub record WriteIo : Type 0 where
  pub stops_after : Option ℕ
  pub synced : Bool

pub record LoadIo : Type 0 where
  pub opened : Bool
  pub rewound : Bool
  pub scanned : Bool
  pub seeked_end : Bool

-- bufio.ScanLines: the text between newlines, and a last line that has none, if not empty.
unfoldable pub push : ℕ → List Bytes → List Bytes
push b [] = (b ∷ []) ∷ []
push b (l ∷ ls) = (b ∷ l) ∷ ls

unfoldable pub raw_lines : Bytes → List Bytes
unfolding push
raw_lines [] = []
raw_lines (b ∷ bs) = let rest = raw_lines bs in if b == newline then [] ∷ rest else push b rest

-- The scanner drops one carriage return at the end of a line.
unfoldable pub drop_cr : Bytes → Bytes
drop_cr [] = []
drop_cr (b ∷ []) = if b == carriage_return then [] else b ∷ []
drop_cr (b ∷ c ∷ bs) = b ∷ drop_cr (c ∷ bs)

abbrev pub max_token : ℕ
max_token = 2 ^ 20

-- One row of the file: the latest state of its key, and the key's place if it is new.
unfoldable pub observe : Record → Table → Table
unfolding default_status lookup insert
observe r t =
    let rec = default_status r in
    let key = key_of rec in
    record {
      records = insert key rec t.records;
      order = if is_some (lookup key t.records) then t.order else t.order ++ (key ∷ []);
    }

-- `if err := s.writeLineLocked(rec); err != nil { return err }`, and then the cache.
abbrev pub on_written : (Store → Store) → Store × Option StoreError → Store × Option StoreError
on_written update (s, some e) = (s, some e)
on_written update (s, none) = (update s, none)

-- `s.records[key] = rec`, with and without `s.order = append(s.order, key)`.
abbrev pub add_row : Bytes → Record → Store → Store
add_row key rec s = record s {
  table = record { records = insert key rec s.records; order = s.order ++ (key ∷ []) };
}

abbrev pub update_row : Bytes → Record → Store → Store
update_row key rec s = record s {
  table = record { records = insert key rec s.records; order = s.order };
}

module _ (json : Json) where
  unfoldable pub load_lines : ℕ → List Bytes → Table → Loaded Table
  load_lines n [] t = ok t
  load_lines n (l ∷ ls) t =
      if leb max_token (length l) then err line_too_long else elim (json.unmarshal (drop_cr l)) [
        | none ↦ err (malformed (n + 1))
        | some r ↦ load_lines (n + 1) ls (observe r t)
      ]

  unfoldable pub load_table : Bytes → Loaded Table
  unfolding load_lines raw_lines
  load_table content = load_lines 0 (raw_lines content) empty_table

  unfoldable pub load_records : LoadIo → Bytes → Loaded Table
  unfolding load_table
  load_records io content =
      if io.rewound
      then elim (load_table content) [
        | err e ↦ err e
        | ok t ↦
            if io.scanned
            then if io.seeked_end then ok t else err seek_end_failed
            else err scan_failed
      ]
      else err seek_failed

  -- The new store, or the error; a failed load closes the file.
  unfoldable pub new_store : LoadIo → Bytes → Loaded Store
  unfolding load_records
  new_store io content =
      if io.opened
      then elim (load_records io content) [
        | err e ↦ err e
        | ok t ↦ ok (record { content = content; is_open = true; table = t })
      ]
      else err open_failed

  -- `file.Write` at the end of the file, then `file.Sync`. A nil file refuses the write.
  unfoldable pub write_out : WriteIo → Bytes → Store → Store × Option StoreError
  write_out io line s =
      if s.is_open
      then elim io.stops_after [
        | some k ↦ (record s { content = s.content ++ take k line }, some write_failed)
        | none ↦
            (record s { content = s.content ++ line }, if io.synced then none else some sync_failed)
      ]
      else (s, some write_failed)

  unfoldable pub write_line_locked : WriteIo → Record → Store → Store × Option StoreError
  unfolding write_out
  write_line_locked io r s = elim (json.marshal r) [
    | none ↦ (s, some marshal_failed)
    | some line ↦ write_out io (line ++ (newline ∷ [])) s
  ]

  unfoldable pub append : WriteIo → Record → Store → Store × Option StoreError
  append io r s =
      let key = key_of r in
      if is_some (lookup key s.records)
      then (s, some duplicate)
      else let rec = default_status r in on_written (add_row key rec) (write_line_locked io rec s)

  -- After the lookup of the key.
  abbrev pub mark_found : WriteIo → Bytes → Option Record → Store → Store × Option StoreError
  mark_found io key none s = (s, some unknown)
  mark_found io key (some r) s =
      if bytes_eq r.dispatch_status status_dispatched
      then (s, none)
      else let rec = record r { dispatch_status = status_dispatched } in
        on_written (update_row key rec) (write_line_locked io rec s)

  unfoldable pub mark_dispatched : WriteIo → Bytes → Bytes → Store → Store × Option StoreError
  mark_dispatched io payment_id tx_hash s =
      let key = dedup_key payment_id tx_hash in mark_found io key (lookup key s.records) s

unfoldable pub has : Bytes → Bytes → Store → Bool
unfolding lookup dedup_key
has payment_id tx_hash s = is_some (lookup (dedup_key payment_id tx_hash) s.records)

unfoldable pub count : Store → ℕ
count s = length s.records

-- The loop of `PendingRecords` over the keys, with what is collected so far.
unfoldable pub pending_loop : List (Bytes × Record) → ℕ → List Bytes → List Record → List Record
unfolding lookup
pending_loop records limit [] out = out
pending_loop records limit (key ∷ keys) out = elim (lookup key records) [
  | none ↦ pending_loop records limit keys out
  | some r ↦ elim (bytes_eq r.dispatch_status status_pending) [
    | true ↦
        let out' = out ++ (r ∷ []) in
        elim (leb limit (length out')) [
          | true ↦ out'
          | false ↦ pending_loop records limit keys out'
        ]
    | false ↦ pending_loop records limit keys out
  ]
]

-- `limit` is an int that the callers give as a constant; a limit of 0 or less is `zero` here.
unfoldable pub pending_records : ℕ → Store → List Record
unfolding pending_loop
pending_records limit s = if leb limit 0 then [] else pending_loop s.records limit s.order []

-- The file handle is released once; a second `Close` does nothing. The handle's own error is
-- passed on to the caller.
unfoldable pub close : Bool → Store → Store × Bool
close closes s = if s.is_open then (record s { is_open = false }, closes) else (s, true)
