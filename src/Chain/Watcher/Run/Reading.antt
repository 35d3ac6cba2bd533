-- ===== src/Chain/Watcher/Run/Reading.antt =====
-- What the loop over the logs of one poll makes of them.
use void_protocol_oss.Base.{
  ℕ, ◌≤◌, ◌≡◌, refl, sym, ap, ◌∙◌, inl, inr, true, none, some, List, [], ◌∷◌, ◌++◌, All, ltb, leb,
  Option-cases, eq_of_some, if◌then◌else◌, arith,
}
use mathlib.Core.List.{append_assoc, append-nil}
use mathlib.Core.Path.{subst}
use void_protocol_oss.Chain.Watcher.{
  SettlementEvent, Log, EventFilterer, Watcher, decode_settlement_created, Polled, with_time,
  stamped, collect,
}
use void_protocol_oss.Chain.Watcher.Cursor.{decoded_topics}
use void_protocol_oss.Chain.Watcher.Run.Blocks.{IsHonest, timed_event, cons_event, events_of}

module _ (chain : ℕ → List Log) (time : ℕ → ℕ) where
  -- What a run of the loop over logs has made of them.
  pub record IsRead (ls : List Log) (evs : List SettlementEvent) (highest : ℕ) (p : Polled)
      : Type 0 where
    pub out : List SettlementEvent
    pub is_out : events_of time ls ≡ some out
    pub events : p.events ≡ evs ++ out
    pub least : highest ≤ p.highest
    pub covers : All (λ (l : Log). l.block_number ≤ p.highest) ls

  stamped_event :
      (head : ℕ) (client : EventFilterer) (w : Watcher) (l : Log) (ev ev' : SettlementEvent)
      → IsHonest chain time head client
      → w.next_block ≤ l.block_number
      → decode_settlement_created l ≡ some ev
      → stamped client w ev ≡ some ev'
      → (timed_event time (decode_settlement_created l) ≡ some ev')
        × (ev'.block_number ≡ l.block_number)
  unfolding decode_settlement_created
  stamped_event head client w l ev ev' h r d e =
      let at = decoded_topics l.topics l ev d in
      let here : leb w.next_block ev.block_number ≡ true = ground (arith, at, r) in
      elim (Option-cases (client.header_time ev.block_number)) [
        | inl x ↦
            let bad : none ≡ some ev' =
              sym (
                ap
                  (λ b.
                    if b
                    then with_time client w ev (client.header_time ev.block_number)
                    else some ev)
                  here
                ∙ ap (with_time client w ev) x)
              ∙ e in
            absurd (ground (arith, bad))
        | inr (t, x) ↦
            let same : some (record ev { block_time_sec = t }) ≡ some ev' =
              sym (
                ap
                  (λ b.
                    if b
                    then with_time client w ev (client.header_time ev.block_number)
                    else some ev)
                  here
                ∙ ap (with_time client w ev) x)
              ∙ e in
            (
              ap (timed_event time) d
                  ∙ ap (λ n. some (record ev { block_time_sec = n }))
                      (sym (h.timed ev.block_number t x))
                  ∙ same,
              ap (λ (v : SettlementEvent). v.block_number) (sym (eq_of_some same)) ∙ at,
            )
      ]

  IsRead-cons :
      (l : Log) (ls : List Log) (ev : SettlementEvent) (evs : List SettlementEvent) (hi hi' : ℕ)
      (p : Polled)
      → timed_event time (decode_settlement_created l) ≡ some ev
      → hi ≤ hi'
      → l.block_number ≤ hi'
      → IsRead ls (evs ++ (ev ∷ [])) hi' p
      → IsRead (l ∷ ls) evs hi p
  IsRead-cons l ls ev evs hi hi' p t a b r =
      let m = r.least in
      record {
        out = ev ∷ r.out;
        is_out = ap (λ x. cons_event x (events_of time ls)) t ∙ ap (cons_event (some ev)) r.is_out;
        events = r.events ∙ append_assoc evs (ev ∷ []) r.out;
        least = omega (arith, a, m);
        covers = (omega (arith, b, m), r.covers);
      }

  pub collect-IsRead :
      (head : ℕ) (client : EventFilterer) (w : Watcher) (ls : List Log) (evs : List SettlementEvent)
      (hi : ℕ)
      → IsHonest chain time head client
      → All (λ (l : Log). w.next_block ≤ l.block_number) ls
      → (collect client w ls evs hi).error ≡ none
      → IsRead ls evs hi (collect client w ls evs hi)
  unfolding collect
  collect-IsRead head client w [] evs hi h r e = record {
    out = [];
    is_out = refl;
    events = sym (append-nil evs);
    least = omega arith;
    covers = tt;
  }
  collect-IsRead head client w (l ∷ ls) evs hi h r e =
      elim (Option-cases (decode_settlement_created l)) [
        | inl d ↦ absurd (ground (arith, e, d))
        | inr (ev, d) ↦ elim (Option-cases (stamped client w ev)) [
          | inl t ↦ absurd (ground (arith, e, d, t))
          | inr (ev', t) ↦
              let (is, at) = stamped_event head client w l ev ev' h r.0 d t in
              let hi' = if ltb hi ev'.block_number then ev'.block_number else hi in
              let same : collect client w (l ∷ ls) evs hi
                  ≡ collect client w ls (evs ++ (ev' ∷ [])) hi' =
                rw (collect, d, t) refl in
              subst (IsRead (l ∷ ls) evs hi) (sym same) (
                IsRead-cons l ls ev' evs hi hi' _ is (ground arith) (ground (arith, at)) (
                  collect-IsRead head client w ls (evs ++ (ev' ∷ [])) hi' h r.1
                    (sym (ap (λ (p : Polled). p.error) same) ∙ e)))
        ]
      ]
