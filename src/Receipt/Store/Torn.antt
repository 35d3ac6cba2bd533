-- ===== src/Receipt/Store/Torn.antt =====
-- A write that the machine cuts short.
use void_protocol_oss.Base.{
  ℕ, zero, suc, ◌+◌, ◌≤◌, ◌<◌, ◌≡◌, ◌≢◌, refl, ap, ◌∙◌, inl, inr, true, some, none, List, [], ◌∷◌,
  ◌++◌, length, take, All, leb, false, arith,
}
use mathlib.Core.List.{append_assoc}
use void_protocol_oss.Base.Bytes.{Bytes}
use void_protocol_oss.Base.Dict.{bytes_Eq, lookup}
use void_protocol_oss.Receipt.Record.{Record, IsStorable, key_of, default_status}
use void_protocol_oss.Receipt.Json.{Json, newline}
use void_protocol_oss.Receipt.Store.{
  Store, Table, WriteIo, LoadIo, ok, err, malformed, append, load_lines, load_table, load_records,
  new_store, raw_lines, drop_cr, empty_table, max_token, write_line_locked, write_out, write_failed,
}
use void_protocol_oss.Receipt.Store.Lines.{
  IsEnded, IsLine, drop_cr-line, load_lines-append, raw_lines-append,
}
use void_protocol_oss.Receipt.Store.Effect.{default_status-IsStorable}
use void_protocol_oss.Receipt.Store.History.{Event, restarts, IsWhole, fresh, run, durable_after}

raw_lines_tail : (p : Bytes) → IsLine p → p ≢ [] → raw_lines p ≡ p ∷ []
unfolding raw_lines
raw_lines_tail [] h n = absurd (n refl)
raw_lines_tail (b ∷ []) h n = ground arith
raw_lines_tail (b ∷ c ∷ p) h n = ground (arith, raw_lines_tail (c ∷ p) h.1)

raw_lines-torn :
    (c p : Bytes) → IsEnded c → IsLine p → p ≢ [] → raw_lines (c ++ p) ≡ raw_lines c ++ (p ∷ [])
unfolding raw_lines
raw_lines-torn c p (inl e) h n = rw e (raw_lines_tail p h n)
raw_lines-torn c p (inr (xs, e)) h n = rw e (
    ap raw_lines (append_assoc xs (newline ∷ []) p)
    ∙ raw_lines-append xs p
    ∙ ap (λ m. raw_lines (xs ++ (newline ∷ [])) ++ m) (raw_lines_tail p h n))

take-IsLine : (k : ℕ) (l : Bytes) → IsLine l → IsLine (take k l)
take-IsLine zero l h = tt
take-IsLine (suc k) [] h = tt
take-IsLine (suc k) (b ∷ l) h = (h.0, take-IsLine k l h.1)

take-append_lt {ℓ} :
    {A : Type ℓ} (k : ℕ) (l : List A) (x : A) → k < length l → take k (l ++ (x ∷ [])) ≡ take k l
take-append_lt zero l x h = refl
take-append_lt (suc k) [] x h = absurd (omega arith)
take-append_lt (suc k) (b ∷ l) x h = ap (λ m. b ∷ m) (take-append_lt k l x (omega arith))

take-ne-nil : (k : ℕ) (l : Bytes) → 0 < k → k < length l → take k l ≢ []
take-ne-nil zero l p h = absurd (omega arith)
take-ne-nil (suc k) [] p h = absurd (omega arith)
take-ne-nil (suc k) (b ∷ l) p h = λ e. cc

length-take-le : (k : ℕ) (l : Bytes) → length (take k l) ≤ length l
length-take-le zero l = omega arith
length-take-le (suc k) [] = omega arith
length-take-le (suc k) (b ∷ l) = omega (arith, length-take-le k l)

lt-leb-false : (a b : ℕ) → a < b → leb b a ≡ false
lt-leb-false a b h = ground arith

module _ (json : Json) where
  load_lines_bad :
      (n : ℕ) (p : Bytes) (t : Table)
      → length p < max_token
      → json.unmarshal (drop_cr p) ≡ none
      → load_lines json n (p ∷ []) t ≡ err (malformed (n + 1))
  unfolding load_lines
  load_lines_bad n p t fits u = rw (u, lt-leb-false _ _ fits) refl

  load_table-torn :
      (c l : Bytes) (r : Record) (t : Table) (k : ℕ)
      → IsEnded c
      → load_table json c ≡ ok t
      → IsStorable r
      → json.marshal r ≡ some l
      → 0 < k
      → k < length l
      → load_table json (c ++ take k l) ≡ err (malformed (length (raw_lines c) + 1))
  unfolding load_table
  load_table-torn c l r t k ended loads st m pos lt =
      rw
        (
          raw_lines-torn c (take k l) ended line (take-ne-nil k l pos lt),
          load_lines-append json 0 (raw_lines c) (take k l ∷ []) empty_table,
          loads,
        )
        (load_lines_bad _ (take k l) t fits
            (rw (drop_cr-line (take k l) line) (json.prefix_invalid r l k st m lt))
          ∙ ap (λ (x : ℕ). err (malformed (x + 1))) (omega arith))
    where
      line : IsLine (take k l)
      line = take-IsLine k l (json.one_line r l st m)

      fits : length (take k l) < max_token
      fits =
          omega (arith, json.line_size r l st m, length-take-le k l, st.text_fits, st.status_fits)

  write_torn :
      (io : WriteIo) (r : Record) (s : Store) (l : Bytes) (k : ℕ)
      → s.is_open ≡ true
      → json.marshal r ≡ some l
      → io.stops_after ≡ some k
      → write_line_locked json io r s
        ≡ (record s { content = s.content ++ take k (l ++ (newline ∷ [])) }, some write_failed)
  unfolding write_line_locked write_out
  write_torn io r s l k o m w = ground arith

  append_torn :
      (io : WriteIo) (r : Record) (s : Store) (l : Bytes) (k : ℕ)
      → lookup (key_of r) s.records ≡ none
      → s.is_open ≡ true
      → json.marshal (default_status r) ≡ some l
      → io.stops_after ≡ some k
      → k < length l
      → (append json io r s).0.content ≡ s.content ++ take k l
  unfolding append
  append_torn io r s l k n o m w lt =
      rw (append, n, write_torn io (default_status r) s l k o m w)
        (ap (λ x. s.content ++ x) (take-append_lt k l newline lt))

  -- After a torn-free history, an Append whose write is cut off inside its line leaves a file
  -- that no later start of the gateway accepts: NewStore reports the fragment as malformed.
  pub torn_append_blocks_restart :
      (es : List Event) (io : WriteIo) (lio : LoadIo) (r : Record) (s : Store) (l : Bytes) (k : ℕ)
      → All IsWhole es
      → run json es fresh ≡ ok s
      → IsWhole (restarts lio)
      → IsStorable r
      → lookup (key_of r) s.records ≡ none
      → s.is_open ≡ true
      → json.marshal (default_status r) ≡ some l
      → io.stops_after ≡ some k
      → 0 < k
      → k < length l
      → new_store json lio (append json io r s).0.content
        ≡ err (malformed (length (raw_lines s.content) + 1))
  unfolding new_store load_records
  torn_append_blocks_restart es io lio r s l k w e (a, b, _, _) st n o m stops pos lt =
      let v = durable_after json es s w e in
      rw
        (
          append_torn io r s l k n o m stops lt,
          a,
          b,
          load_table-torn s.content l (default_status r) v.disk k v.ended v.loads
              (default_status-IsStorable json r st) m pos lt,
        )
        refl
