-- ===== src/Chain/Watcher/Run/Live.antt =====
-- The watcher's loop over nodes that answer.
use void_protocol_oss.Base.{
  ℕ, zero, suc, ◌+◌, ◌-◌, ◌^◌, ◌≤◌, ◌<◌, ◌≡◌, refl, sym, ap, ◌∙◌, inl, inr, false, none, some, List,
  [], ◌∷◌, ◌++◌, All, All-append, ltb, leb, Bool-cases, eq_of_some, if◌then◌else◌, arith,
}
use void_protocol_oss.Chain.Watcher.{
  SettlementEvent, Log, EventFilterer, Watcher, decode_settlement_created, stamped, collect,
  advance, poll_logs, poll_head, poll,
}
use void_protocol_oss.Chain.Watcher.Run.{Round, going, handle_all, run}
use void_protocol_oss.Chain.Watcher.Run.Blocks.{logs_in, IsChain, IsHonest, chain_node}
use void_protocol_oss.Chain.Watcher.Run.Whole.{AreHonest, IsHandled, run_handles_each_once}

-- A log that the watcher can decode.
abbrev pub Decodes : Log → Type 0
Decodes l = (ev : SettlementEvent) × (decode_settlement_created l ≡ some ev)

-- A node that answers every call from the chain.
pub record IsAnswering (chain : ℕ → List Log) (time : ℕ → ℕ) (head : ℕ) (client : EventFilterer)
    : Type 0 where
  pub answers_head : client.block_number ≡ some head
  pub bounded : head + 1 < 2 ^ 64
  pub answers_logs :
      (from : ℕ)
      → from ≤ head
      → client.filter_logs from head ≡ some (logs_in chain from (head + 1 - from))
  pub answers_time : (n : ℕ) → client.header_time n ≡ some (time n)

pub IsAnswering-IsHonest :
    (chain : ℕ → List Log) (time : ℕ → ℕ) (head : ℕ) (client : EventFilterer)
    → IsAnswering chain time head client
    → IsHonest chain time head client
IsAnswering-IsHonest chain time head client a = record {
  at_head = λ n e. eq_of_some (sym e ∙ a.answers_head);
  bounded = a.bounded;
  filtered = λ from ls l e. eq_of_some (sym e ∙ a.answers_logs from l);
  timed = λ n t e. eq_of_some (sym e ∙ a.answers_time n);
}

pub chain_node-IsAnswering :
    (chain : ℕ → List Log) (c : IsChain chain) (time : ℕ → ℕ) (head : ℕ)
    → head + 1 < 2 ^ 64
    → IsAnswering chain time head (chain_node chain c time head)
chain_node-IsAnswering chain c time head h = record {
  answers_head = refl;
  bounded = h;
  answers_logs = λ from l. refl;
  answers_time = λ n. refl;
}

module _ (chain : ℕ → List Log) (time : ℕ → ℕ) where
  logs_in-Decodes :
      (from n : ℕ) → ((b : ℕ) → All Decodes (chain b)) → All Decodes (logs_in chain from n)
  logs_in-Decodes from zero d = tt
  logs_in-Decodes from (suc n) d =
      All-append Decodes (chain from) (logs_in chain (from + 1) n) (d from)
        (logs_in-Decodes (from + 1) n d)

  module _ (head : ℕ) (client : EventFilterer) (a : IsAnswering chain time head client)
      (w : Watcher) where
    stamped-some :
        (ev : SettlementEvent) → (ev' : SettlementEvent) × (stamped client w ev ≡ some ev')
    stamped-some ev = elim (Bool-cases (leb w.next_block ev.block_number)) [
      | inl b ↦ (
        record ev { block_time_sec = time ev.block_number },
        rw (b, a.answers_time ev.block_number) refl,
      )
      | inr b ↦ (ev, rw b refl)
    ]

    collect_ends :
        (ls : List Log) (evs : List SettlementEvent) (hi : ℕ)
        → All Decodes ls
        → (collect client w ls evs hi).error ≡ none
    unfolding collect
    collect_ends [] evs hi d = refl
    collect_ends (l ∷ ls) evs hi d =
        let (ev, e) = d.0 in
        let (ev', e') = stamped-some ev in
        rw (collect, e, e')
          (collect_ends ls (evs ++ (ev' ∷ []))
            (if ltb hi ev'.block_number then ev'.block_number else hi) d.1)

    logs_end : (ls : List Log) → All Decodes ls → (poll_logs client w (some ls)).2 ≡ none
    logs_end [] d = refl
    logs_end (l ∷ ls) d = let e = collect_ends (l ∷ ls) [] w.next_block d in rw (advance, e) refl

    -- A poll ends without an error.
    pub poll_ends : ((b : ℕ) → All Decodes (chain b)) → (poll client w).2 ≡ none
    unfolding poll
    poll_ends d =
        ap (λ x. (poll_head client w x).2) a.answers_head
        ∙ elim (Bool-cases (ltb head w.next_block)) [
          | inl b ↦ rw b refl
          | inr b ↦
              let low : w.next_block ≤ head = ground (arith, b) in
              rw (b, a.answers_logs w.next_block low)
                (logs_end (logs_in chain w.next_block (head + 1 - w.next_block))
                  (logs_in-Decodes w.next_block (head + 1 - w.next_block) d))
        ]

  abbrev pub AreAnswering : List Round → List ℕ → Type 0
  AreAnswering [] [] = Unit
  AreAnswering [] (h ∷ hs) = ⊥
  AreAnswering (r ∷ rs) [] = ⊥
  AreAnswering (r ∷ rs) (h ∷ hs) =
      IsAnswering chain time h r.client × (r.is_done ≡ false) × AreAnswering rs hs

  pub AreAnswering-AreHonest :
      (rounds : List Round) (heads : List ℕ)
      → AreAnswering rounds heads
      → AreHonest chain time rounds heads
  AreAnswering-AreHonest [] [] a = tt
  AreAnswering-AreHonest [] (h ∷ hs) a = absurd a
  AreAnswering-AreHonest (r ∷ rs) [] a = absurd a
  AreAnswering-AreHonest (r ∷ rs) (h ∷ hs) (a, _, more) =
      (IsAnswering-IsHonest chain time h r.client a, AreAnswering-AreHonest rs hs more)

  module _ {ℓ} {S : Type ℓ} (handler : S → SettlementEvent → S) where
    run_goes_on :
        (rounds : List Round) (heads : List ℕ) (w : Watcher) (s : S)
        → ((b : ℕ) → All Decodes (chain b))
        → AreAnswering rounds heads
        → (run handler rounds w s).2 ≡ going
    unfolding run
    run_goes_on [] [] w s d a = refl
    run_goes_on [] (h ∷ hs) w s d a = absurd a
    run_goes_on (r ∷ rs) [] w s d a = absurd a
    run_goes_on (r ∷ rs) (h ∷ hs) w s d (a, n, more) =
        let p = poll r.client w in
        let x = poll_ends h r.client a w d in
        rw (run, x, n) (run_goes_on rs hs p.0 (handle_all handler s p.1) d more)

    -- Over nodes that answer every call, and a chain whose logs can be decoded, the loop does not
    -- stop by itself, and then it has handled every settlement up to each head once, in order.
    pub run_never_stops :
        (rounds : List Round) (heads : List ℕ) (w : Watcher) (s : S)
        → IsChain chain
        → ((b : ℕ) → All Decodes (chain b))
        → AreAnswering rounds heads
        → (w' : Watcher) × (s' : S) × (run handler rounds w s ≡ (w', s', going))
          × IsHandled chain time handler heads w s w' s'
    run_never_stops rounds heads w s c d a =
        let o = run handler rounds w s in
        let e = ap (λ x. (o.0, o.1, x)) (run_goes_on rounds heads w s d a) in
        (
          o.0,
          o.1,
          e,
          run_handles_each_once chain time handler rounds heads w o.0 s o.1 c
              (AreAnswering-AreHonest rounds heads a) e,
        )
