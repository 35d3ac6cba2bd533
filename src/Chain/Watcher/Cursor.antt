-- ===== src/Chain/Watcher/Cursor.antt =====
-- The cursor of the watcher.
use void_protocol_oss.Base.{
  ℕ, ◌+◌, ◌%◌, ◌^◌, ◌≤◌, ◌<◌, ◌≡◌, refl, sym, ap, ◌∙◌, inl, inr, Option, none, some, List, [], ◌∷◌,
  ◌++◌, length, length-append, All, All-append, ltb, Bool-cases, Option-cases, if◌then◌else◌, arith,
}
use mathlib.Core.Path.{subst}
use void_protocol_oss.Base.Bytes.{Bytes}
use void_protocol_oss.Chain.Watcher.{
  SettlementEvent, Log, EventFilterer, PollError, Watcher, decode_topics, decode_settlement_created,
  Polled, stamped, collect, advance, poll_logs, poll_head, poll,
}

pub decoded_topics :
    (ts : List Bytes) (l : Log) (ev : SettlementEvent)
    → decode_topics ts l ≡ some ev
    → ev.block_number ≡ l.block_number
decoded_topics [] l ev e = cc
decoded_topics (_ ∷ []) l ev e = cc
decoded_topics (_ ∷ _ ∷ []) l ev e = cc
decoded_topics (_ ∷ _ ∷ _ ∷ []) l ev e = cc
decoded_topics (_ ∷ _ ∷ _ ∷ _ ∷ []) l ev e = ground (arith, e)
decoded_topics (_ ∷ _ ∷ _ ∷ _ ∷ _ ∷ _) l ev e = cc

module _ (client : EventFilterer) (w : Watcher) where
  timed_block :
      (ev ev' : SettlementEvent)
      → stamped client w ev ≡ some ev'
      → ev'.block_number ≡ ev.block_number
  timed_block ev ev' e = elim (Option-cases (client.header_time ev.block_number)) [
    | inl h ↦ ground (arith, e, h)
    | inr (t, h) ↦ ground (arith, e, h)
  ]

  abbrev pub Within : ℕ → ℕ → SettlementEvent → Type 0
  Within a b ev = (a ≤ ev.block_number) × (ev.block_number ≤ b)

  weaken :
      (a b c : ℕ) (evs : List SettlementEvent) → b ≤ c → All (Within a b) evs → All (Within a c) evs
  weaken a b c [] h v = tt
  weaken a b c (ev ∷ evs) h v = (omega arith, weaken a b c evs h v.1)

  abbrev larger : ℕ → SettlementEvent → ℕ
  larger highest ev = if ltb highest ev.block_number then ev.block_number else highest

  -- What a run of the loop without an error has made of the logs of a range.
  pub record IsCollected (low high count : ℕ) (p : Polled) : Type 0 where
    pub above : low ≤ p.highest
    pub below : p.highest ≤ high
    pub within : All (Within low p.highest) p.events
    pub complete : length p.events ≡ count

  pub collect-IsCollected :
      (low high : ℕ) (ls : List Log) (evs : List SettlementEvent) (highest : ℕ)
      → All (λ (l : Log). (low ≤ l.block_number) × (l.block_number ≤ high)) ls
      → low ≤ highest
      → highest ≤ high
      → All (Within low highest) evs
      → (collect client w ls evs highest).error ≡ none
      → IsCollected low high (length evs + length ls) (collect client w ls evs highest)
  unfolding collect decode_settlement_created
  collect-IsCollected low high [] evs hi r a b v e = record {
    above = a;
    below = b;
    within = v;
    complete = omega arith;
  }
  collect-IsCollected low high (l ∷ ls) evs hi r a b v e =
      elim (Option-cases (decode_topics l.topics l)) [
        | inl d ↦ absurd (ground (arith, e, d))
        | inr (ev, d) ↦ elim (Option-cases (stamped client w ev)) [
          | inl t ↦ absurd (ground (arith, e, d, t))
          | inr (ev', t) ↦
              let at : ev'.block_number ≡ l.block_number =
                timed_block ev ev' t ∙ decoded_topics l.topics l ev d in
              let wide : All (Within low (larger hi ev')) evs =
                weaken low hi (larger hi ev') evs (ground arith) v in
              let all : All (Within low (larger hi ev')) (evs ++ (ev' ∷ [])) =
                All-append _ evs (ev' ∷ []) wide ((ground (arith, at, r.0, a), ground arith), tt) in
              let same : collect client w (l ∷ ls) evs hi
                  ≡ collect client w ls (evs ++ (ev' ∷ [])) (larger hi ev') =
                rw (collect, d, t) refl in
              let count : length (evs ++ (ev' ∷ [])) + length ls ≡ length evs + length (l ∷ ls) =
                omega (arith, length-append evs (ev' ∷ [])) in
              subst (λ (p : Polled). IsCollected low high (length evs + length (l ∷ ls)) p)
                (sym same)
                (subst
                  (λ (n : ℕ).
                    IsCollected low high n
                      (collect client w ls (evs ++ (ev' ∷ [])) (larger hi ev')))
                  count
                  (collect-IsCollected low high ls (evs ++ (ev' ∷ [])) (larger hi ev') r.1
                    (ground arith) (ground (arith, at, r.0, b)) all
                    (sym (ap (λ (p : Polled). p.error) same) ∙ e)))
        ]
      ]

  Moved : Watcher × List SettlementEvent × Option PollError → Type 0
  Moved r =
      (w.next_block ≤ r.0.next_block)
      × All (λ ev. (w.next_block ≤ ev.block_number) × (ev.block_number < r.0.next_block)) r.1

  strictly :
      (a b c : ℕ) (evs : List SettlementEvent)
      → b < c
      → All (Within a b) evs
      → All (λ ev. (a ≤ ev.block_number) × (ev.block_number < c)) evs
  strictly a b c [] h v = tt
  strictly a b c (ev ∷ evs) h v = (omega arith, strictly a b c evs h v.1)

  advance-Moved :
      (head count : ℕ) (p : Polled)
      → head + 1 < 2 ^ 64
      → p.error ≡ none
      → IsCollected w.next_block head count p
      → Moved (advance client w p)
  unfolding Moved
  advance-Moved head count p h e c =
      let whole : (p.highest + 1) % 2 ^ 64 ≡ p.highest + 1 = omega (arith, c.below) in
      rw (advance, e)
        (
          omega (arith, whole, c.above),
          strictly w.next_block p.highest ((p.highest + 1) % 2 ^ 64) p.events (omega (arith, whole))
              c.within,
        )

  logs-Moved :
      (head : ℕ) (ls : List Log) (w' : Watcher) (evs : List SettlementEvent)
      → head + 1 < 2 ^ 64
      → w.next_block ≤ head
      → All (λ (l : Log). (w.next_block ≤ l.block_number) × (l.block_number ≤ head)) ls
      → poll_logs client w (some ls) ≡ (w', evs, none)
      → Moved (poll_logs client w (some ls))
  unfolding Moved
  logs-Moved head [] w' evs h n r e = (omega arith, tt)
  logs-Moved head (l ∷ ls) w' evs h n r e =
      let p = collect client w (l ∷ ls) [] w.next_block in
      elim (Option-cases p.error) [
        | inl x ↦
            advance-Moved head _ p h x (
              collect-IsCollected w.next_block head (l ∷ ls) [] w.next_block r (omega arith) n tt x)
        | inr (er, x) ↦ absurd (ground (arith, e, x))
      ]

  poll-Moved :
      (w' : Watcher) (evs : List SettlementEvent)
      → ((head : ℕ) → client.block_number ≡ some head → head + 1 < 2 ^ 64)
      → poll client w ≡ (w', evs, none)
      → Moved (poll client w)
  unfolding poll Moved
  poll-Moved w' evs bound e = elim (Option-cases client.block_number) [
    | inl b ↦ absurd (ground (arith, e, b))
    | inr (head, b) ↦ elim (Bool-cases (ltb head w.next_block)) [
      | inl c ↦ rw (b, c) (omega arith, tt)
      | inr c ↦ elim (Option-cases (client.filter_logs w.next_block head)) [
        | inl f ↦ absurd (ground (arith, e, b, c, f))
        | inr (ls, f) ↦
            let same : poll client w ≡ poll_logs client w (some ls) =
              ap (poll_head client w) b
              ∙ ap
                  (λ x.
                    if x
                    then (w, [], none)
                    else poll_logs client w (client.filter_logs w.next_block head))
                  c
              ∙ ap (poll_logs client w) f in
            subst Moved (sym same) (
              logs-Moved head ls w' evs (bound head b) (ground (arith, c))
                (client.in_range w.next_block head ls f) (sym same ∙ e))
      ]
    ]
  ]

-- A poll without an error never moves the cursor back, and the block of each event that it returns
-- lies between the cursor before the poll and the new one, which is past it; so the events of two
-- such polls in a row stand in different blocks. Block numbers are assumed below 2 ^ 64 - 1.
pub poll_advances :
    (client : EventFilterer) (w w' : Watcher) (evs : List SettlementEvent)
    → ((head : ℕ) → client.block_number ≡ some head → head + 1 < 2 ^ 64)
    → poll client w ≡ (w', evs, none)
    → (w.next_block ≤ w'.next_block)
      × All (λ ev. (w.next_block ≤ ev.block_number) × (ev.block_number < w'.next_block)) evs
unfolding Moved
poll_advances client w w' evs bound e =
    subst (Moved client w) e (poll-Moved client w w' evs bound e)
