-- ===== src/Chain/Watcher/Run/Whole.antt =====
-- Whole runs of the watcher's loop.
use void_protocol_oss.Base.{
  ℕ, ◌+◌, ◌-◌, ◌≡◌, refl, sym, ap, ◌∙◌, inl, inr, some, List, [], ◌∷◌, ◌++◌, All, leb, Bool-cases,
  Option-cases, arith,
}
use void_protocol_oss.Chain.Watcher.{SettlementEvent, Log, Watcher, poll}
use void_protocol_oss.Chain.Watcher.Run.{Round, going, handle_all, run}
use void_protocol_oss.Chain.Watcher.Run.Blocks.{
  logs_in, logs_in-append, IsChain, IsHonest, events_of, events_of-append,
}
use void_protocol_oss.Chain.Watcher.Run.Once.{IsCaughtUp, poll-IsCaughtUp}

-- Each round sees the same chain, at its own head.
abbrev pub AreHonest : (ℕ → List Log) → (ℕ → ℕ) → List Round → List ℕ → Type 0
AreHonest chain time [] [] = Unit
AreHonest chain time [] (h ∷ hs) = ⊥
AreHonest chain time (r ∷ rs) [] = ⊥
AreHonest chain time (r ∷ rs) (h ∷ hs) = IsHonest chain time h r.client × AreHonest chain time rs hs

right_empty : (xs ys : List Log) → xs ++ ys ≡ [] → ys ≡ []
right_empty [] ys e = e
right_empty (x ∷ xs) ys e = cc

module _ (chain : ℕ → List Log) (time : ℕ → ℕ) where
  -- What the rounds have done: the blocks from the cursor to the new one are those whose events the
  -- handler has had, in order, and behind the new cursor no head has a log.
  pub record IsHandled {ℓ} {S : Type ℓ} (handler : S → SettlementEvent → S) (heads : List ℕ)
      (w : Watcher) (s : S) (w' : Watcher) (s' : S) : Type ℓ where
    pub blocks : ℕ
    pub moved : w.next_block + blocks ≡ w'.next_block
    pub events : List SettlementEvent
    pub is_read : events_of time (logs_in chain w.next_block blocks) ≡ some events
    pub handled : handle_all handler s events ≡ s'
    pub nothing_left :
        All (λ (h : ℕ). logs_in chain w'.next_block (h + 1 - w'.next_block) ≡ []) heads

  still_empty :
      (a n b h : ℕ)
      → a + n ≡ b
      → logs_in chain a (h + 1 - a) ≡ []
      → logs_in chain b (h + 1 - b) ≡ []
  still_empty a n b h e v = elim (Bool-cases (leb (h + 1) b)) [
    | inl c ↦ ap (logs_in chain b) {x = h + 1 - b} {y = 0} (ground (arith, c))
    | inr c ↦
        let count : h + 1 - a ≡ n + (h + 1 - b) = ground (arith, c, e) in
        ap (λ x. logs_in chain x (h + 1 - b)) (sym e)
        ∙ right_empty (logs_in chain a n) (logs_in chain (a + n) (h + 1 - b))
            (sym (logs_in-append chain a n (h + 1 - b)) ∙ ap (logs_in chain a) (sym count) ∙ v)
  ]

  module _ {ℓ} {S : Type ℓ} (handler : S → SettlementEvent → S) where
    handle_all-append :
        (s : S) (xs ys : List SettlementEvent)
        → handle_all handler s (xs ++ ys) ≡ handle_all handler (handle_all handler s xs) ys
    handle_all-append s [] ys = refl
    handle_all-append s (x ∷ xs) ys = handle_all-append (handler s x) xs ys

    then-IsHandled :
        (h : ℕ) (hs : List ℕ) (w w₁ w' : Watcher) (s s' : S) (evs : List SettlementEvent)
        → IsCaughtUp chain time w h w₁ evs
        → IsHandled handler hs w₁ (handle_all handler s evs) w' s'
        → IsHandled handler (h ∷ hs) w s w' s'
    then-IsHandled h hs w w₁ w' s s' evs c d =
        let a = c.moved in
        let b = d.moved in
        record {
          blocks = c.blocks + d.blocks;
          moved = omega (arith, a, b);
          events = evs ++ d.events;
          is_read =
              ap (events_of time) (
                logs_in-append chain w.next_block c.blocks d.blocks
                ∙ ap (λ x. logs_in chain w.next_block c.blocks ++ logs_in chain x d.blocks) a)
              ∙ events_of-append time (logs_in chain w.next_block c.blocks)
                  (logs_in chain w₁.next_block d.blocks) evs d.events c.is_read d.is_read;
          handled = handle_all-append s evs d.events ∙ d.handled;
          nothing_left =
              (still_empty w₁.next_block d.blocks w'.next_block h b c.nothing_left, d.nothing_left);
        }

    -- While the loop runs, every settlement of the chain from the cursor to each head that a round
    -- has seen has been handled once, in the order of the chain, and no other event has been.
    pub run_handles_each_once :
        (rounds : List Round) (heads : List ℕ) (w w' : Watcher) (s s' : S)
        → IsChain chain
        → AreHonest chain time rounds heads
        → run handler rounds w s ≡ (w', s', going)
        → IsHandled handler heads w s w' s'
    unfolding run
    run_handles_each_once [] [] w w' s s' c h e =
        let cursor : w ≡ w' = ap (λ x. x.0) e in
        let state : s ≡ s' = ap (λ x. x.1) e in
        record {
          blocks = 0;
          moved = ap (λ (x : Watcher). x.next_block + 0) cursor ∙ omega arith;
          events = [];
          is_read = refl;
          handled = state;
          nothing_left = tt;
        }
    run_handles_each_once [] (h ∷ hs) w w' s s' c v e = absurd v
    run_handles_each_once (r ∷ rs) [] w w' s s' c v e = absurd v
    run_handles_each_once (r ∷ rs) (h ∷ hs) w w' s s' c v e =
        let p = poll r.client w in
        elim (Option-cases p.2) [
          | inr (er, x) ↦ absurd (ground (arith, e, x))
          | inl x ↦ elim (Bool-cases r.is_done) [
            | inl d ↦ absurd (ground (arith, e, x, d))
            | inr d ↦
                let same : run handler (r ∷ rs) w s
                    ≡ run handler rs p.0 (handle_all handler s p.1) =
                  rw (run, x, d) refl in
                then-IsHandled h hs w p.0 w' s s' p.1
                  (poll-IsCaughtUp chain time h r.client w p.0 p.1 c v.0
                    (ap (λ y. (p.0, p.1, y)) x))
                  (run_handles_each_once rs hs p.0 w' (handle_all handler s p.1) s' c v.1
                    (sym same ∙ e))
          ]
        ]
