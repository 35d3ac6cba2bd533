-- ===== src/Receipt/Store/Recovery.antt =====
-- What survives a restart.
use mathlib.Core.Path.{subst}
use void_protocol_oss.Base.{
  ℕ, ◌<◌, ◌≡◌, refl, sym, ap, ◌∙◌, ◌⊎◌, inl, inr, Bool, true, false, some, [], ◌∷◌, ◌++◌, length,
  leb, Bool-cases, eq_of_some, if◌then◌else◌, arith,
}
use void_protocol_oss.Base.Bytes.{Bytes, bytes_eq, bytes_eq→eq}
use void_protocol_oss.Base.Dict.{bytes_Eq, lookup, lookup-insert}
use void_protocol_oss.Receipt.Record.{Record, IsStorable, key_of, default_status}
use void_protocol_oss.Receipt.Json.{Json, newline}
use void_protocol_oss.Receipt.Store.{
  Store, Table, ok, observe, load_lines, load_table, raw_lines, drop_cr, max_token, empty_table,
}
use void_protocol_oss.Receipt.Store.Lines.{
  IsEnded, IsLine, IsEnded-line, raw_lines-ended, drop_cr-line, load_lines-append,
}
use void_protocol_oss.Receipt.Store.Effect.{
  Rows, dispatched, IsRow, AreRows, Advances, Effect, same, wrote,
}

-- The same row, or its dispatched form.
abbrev pub Extends : Record → Record → Type 0
Extends r r' = (r' ≡ r) ⊎ (r' ≡ dispatched r)

-- Each row of `m` is in `d`, possibly dispatched.
abbrev pub Covers : Rows → Rows → Type 0
Covers m d =
    (key : Bytes) (r : Record)
    → lookup key m ≡ some r
    → (r' : Record) × (lookup key d ≡ some r') × Extends r r'

Extends-trans : (a b c : Record) → Extends a b → Extends b c → Extends a c
Extends-trans a b c h k = ground arith

pub Covers-refl : (m : Rows) → Covers m m
Covers-refl m key r h = (r, h, inl refl)

pub Covers-trans : (a b c : Rows) → Covers a b → Covers b c → Covers a c
Covers-trans a b c h k key r e =
    let (r', e', x) = h key r e in
    let (r'', e'', y) = k key r' e' in (r'', e'', Extends-trans r r' r'' x y)

lookup-observe :
    (r : Record) (t : Table) (key : Bytes)
    → default_status r ≡ r
    → lookup key (observe r t).records
      ≡ (if bytes_eq (key_of r) key then some r else lookup key t.records)
unfolding observe
lookup-observe r t key h = rw h (lookup-insert (key_of r) key r t.records)

observe_hit :
    (r : Record) (t : Table) (key : Bytes)
    → default_status r ≡ r
    → bytes_eq (key_of r) key ≡ true
    → lookup key (observe r t).records ≡ some r
observe_hit r t key f b = rw (lookup-observe r t key f, b)

observe_miss :
    (r : Record) (t : Table) (key : Bytes)
    → default_status r ≡ r
    → bytes_eq (key_of r) key ≡ false
    → lookup key (observe r t).records ≡ lookup key t.records
observe_miss r t key f b = rw (lookup-observe r t key f, b)

observe-AreRows :
    (r : Record) (t : Table)
    → IsRow (key_of r) r
    → AreRows t.records
    → AreRows (observe r t).records
observe-AreRows r t v rows key q e = elim (Bool-cases (bytes_eq (key_of r) key)) [
  | inl b ↦
      subst (λ x. IsRow key x) (eq_of_some (sym (observe_hit r t key v.filled b) ∙ e))
        (subst (λ k. IsRow k r) (bytes_eq→eq (key_of r) key b) v)
  | inr b ↦ rows key q (sym (observe_miss r t key v.filled b) ∙ e)
]

-- A row that advances `m` keeps `m` covered wherever it is observed.
observe-Covers :
    (r : Record) (m : Rows) (t : Table)
    → default_status r ≡ r
    → Advances r m
    → Covers m t.records
    → Covers m (observe r t).records
observe-Covers r m t f a c key q e = elim (Bool-cases (bytes_eq (key_of r) key)) [
  | inl b ↦ (
    r,
    observe_hit r t key f b,
    ground (arith, ap (λ k. lookup k m) (bytes_eq→eq (key_of r) key b)),
  )
  | inr b ↦ let (q', e', x) = c key q e in (q', observe_miss r t key f b ∙ e', x)
]

observe_both-Covers :
    (r : Record) (t d : Table)
    → default_status r ≡ r
    → Covers t.records d.records
    → Covers (observe r t).records (observe r d).records
observe_both-Covers r t d f c key q e = elim (Bool-cases (bytes_eq (key_of r) key)) [
  | inl b ↦ (r, observe_hit r d key f b, inl (eq_of_some (sym (observe_hit r t key f b) ∙ e)))
  | inr b ↦
      let (q', e', x) = c key q (sym (observe_miss r t key f b) ∙ e) in
      (q', observe_miss r d key f b ∙ e', x)
]

lt-leb-false : (a b : ℕ) → a < b → leb b a ≡ false
lt-leb-false a b h = ground arith

module _ (json : Json) where
  load_lines_one :
      (n : ℕ) (l : Bytes) (r : Record) (t : Table)
      → length l < max_token
      → json.unmarshal (drop_cr l) ≡ some r
      → load_lines json n (l ∷ []) t ≡ ok (observe r t)
  unfolding load_lines
  load_lines_one n l r t fits u = rw (u, lt-leb-false _ _ fits) refl

  -- A written line is what the load makes of its row.
  load_table-line :
      (c l : Bytes) (r : Record) (t : Table)
      → IsEnded c
      → load_table json c ≡ ok t
      → IsStorable r
      → json.marshal r ≡ some l
      → load_table json (c ++ (l ++ (newline ∷ []))) ≡ ok (observe r t)
  unfolding load_table
  load_table-line c l r t ended loads st m =
      rw
        (
          raw_lines-ended c l ended line,
          load_lines-append json 0 (raw_lines c) (l ∷ []) empty_table,
          loads,
        )
        (load_lines_one _ l r t fits (rw (drop_cr-line l line) (json.round_trip r l st m)))
    where
      line : IsLine l
      line = json.one_line r l st m

      fits : length l < max_token
      fits = omega (arith, json.line_size r l st m, st.text_fits, st.status_fits)

  -- The file loads to rows that cover the cache.
  pub record IsDurable (s : Store) : Type 0 where
    pub ended : IsEnded s.content
    pub disk : Table
    pub loads : load_table json s.content ≡ ok disk
    pub rows : AreRows s.records
    pub disk_rows : AreRows disk.records
    pub covers : Covers s.records disk.records

  pub Effect-IsDurable : {b : Bool} {s s' : Store} → IsDurable s → Effect json b s s' → IsDurable s'
  Effect-IsDurable v (same e) = subst IsDurable (sym e) v
  Effect-IsDurable {s = s} v (wrote r l t m row adv e (inl (_, et))) =
      subst IsDurable (sym e) (record {
        ended = IsEnded-line s.content l;
        disk = observe r v.disk;
        loads = load_table-line s.content l r v.disk v.ended v.loads row.storable m;
        rows = subst (λ x. AreRows x.records) (sym et) v.rows;
        disk_rows = observe-AreRows r v.disk row v.disk_rows;
        covers =
            subst (λ x. Covers x.records (observe r v.disk).records) (sym et)
              (observe-Covers r s.records v.disk row.filled adv v.covers);
      })
  Effect-IsDurable {s = s} v (wrote r l t m row adv e (inr et)) = subst IsDurable (sym e) (record {
    ended = IsEnded-line s.content l;
    disk = observe r v.disk;
    loads = load_table-line s.content l r v.disk v.ended v.loads row.storable m;
    rows = subst (λ x. AreRows x.records) (sym et) (observe-AreRows r s.table row v.rows);
    disk_rows = observe-AreRows r v.disk row v.disk_rows;
    covers =
        subst (λ x. Covers x.records (observe r v.disk).records) (sym et)
          (observe_both-Covers r s.table v.disk row.filled v.covers);
  })

  pub Effect-Covers : {b : Bool} {s s' : Store} → Effect json b s s' → Covers s.records s'.records
  Effect-Covers {s = s} (same e) =
      subst (λ x. Covers s.records x.records) (sym e) (Covers-refl s.records)
  Effect-Covers {s = s} (wrote r l t m row adv e (inl (_, et))) =
      subst (λ x. Covers s.records x.records) (sym e)
        (subst (λ x. Covers s.records x.records) (sym et) (Covers-refl s.records))
  Effect-Covers {s = s} (wrote r l t m row adv e (inr et)) =
      subst (λ x. Covers s.records x.records) (sym e)
        (subst (λ x. Covers s.records x.records) (sym et)
          (observe-Covers r s.records s.table row.filled adv (Covers-refl s.records)))

  -- The cache is what the file loads to.
  pub record IsExact (s : Store) : Type 0 where
    pub ended : IsEnded s.content
    pub loads : load_table json s.content ≡ ok s.table
    pub rows : AreRows s.records

  pub Effect-IsExact : {s s' : Store} → IsExact s → Effect json true s s' → IsExact s'
  Effect-IsExact v (same e) = subst IsExact (sym e) v
  Effect-IsExact v (wrote r l t m row adv e (inl (x, et))) = absurd (cc)
  Effect-IsExact {s = s} v (wrote r l t m row adv e (inr et)) = subst IsExact (sym e) (record {
    ended = IsEnded-line s.content l;
    loads = load_table-line s.content l r s.table v.ended v.loads row.storable m ∙ ap ok (sym et);
    rows = subst (λ x. AreRows x.records) (sym et) (observe-AreRows r s.table row v.rows);
  })
