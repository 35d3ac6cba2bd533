-- ===== src/Chain/Watcher/Run/Once.antt =====
-- The loop of the watcher handles each settlement of the chain once.
use void_protocol_oss.Base.{
  ℕ, ◌+◌, ◌-◌, ◌%◌, ◌^◌, ◌≤◌, ◌≡◌, refl, sym, ap, ◌∙◌, inl, inr, Option, none, some, List, [], ◌∷◌,
  ◌++◌, All, ltb, Bool-cases, Option-cases, if◌then◌else◌, arith,
}
use mathlib.Core.List.{append-nil}
use mathlib.Core.Path.{subst}
use void_protocol_oss.Chain.Watcher.{
  SettlementEvent, Log, EventFilterer, PollError, Watcher, Polled, collect, advance, poll_logs,
  poll_head, poll,
}
use void_protocol_oss.Chain.Watcher.Cursor.{collect-IsCollected}
use void_protocol_oss.Chain.Watcher.Run.Blocks.{
  logs_in, logs_in-append, IsChain, logs_in-All, IsHonest, events_of,
}
use void_protocol_oss.Chain.Watcher.Run.Reading.{IsRead, collect-IsRead}

module _ (chain : ℕ → List Log) (time : ℕ → ℕ) where
  -- From a cursor to the next: the events of the blocks between, and no log from there to a head.
  pub record IsCaughtUp (w : Watcher) (head : ℕ) (w' : Watcher) (evs : List SettlementEvent)
      : Type 0 where
    pub blocks : ℕ
    pub moved : w.next_block + blocks ≡ w'.next_block
    pub is_read : events_of time (logs_in chain w.next_block blocks) ≡ some evs
    pub nothing_left : logs_in chain w'.next_block (head + 1 - w'.next_block) ≡ []

  stays :
      (w : Watcher) (head : ℕ)
      → logs_in chain w.next_block (head + 1 - w.next_block) ≡ []
      → IsCaughtUp w head w []
  stays w head e = record { blocks = 0; moved = omega arith; is_read = refl; nothing_left = e }

  none_between :
      (h : ℕ) (ls : List Log)
      → All (λ (l : Log). h + 1 ≤ l.block_number) ls
      → All (λ (l : Log). l.block_number ≤ h) ls
      → ls ≡ []
  none_between h [] a b = refl
  none_between h (l ∷ ls) a b = let x = a.0 in let y = b.0 in absurd (omega (arith, x, y))

  All-append_right :
      (h : ℕ) (xs ys : List Log)
      → All (λ (l : Log). l.block_number ≤ h) (xs ++ ys)
      → All (λ (l : Log). l.block_number ≤ h) ys
  All-append_right h [] ys v = v
  All-append_right h (x ∷ xs) ys v = All-append_right h xs ys v.1

  collected :
      (head : ℕ) (w w' : Watcher) (ls : List Log) (evs : List SettlementEvent) (p : Polled)
      → IsChain chain
      → ls ≡ logs_in chain w.next_block (head + 1 - w.next_block)
      → w.next_block ≤ p.highest
      → p.highest ≤ head
      → w'.next_block ≡ p.highest + 1
      → p.events ≡ evs
      → IsRead chain time ls [] w.next_block p
      → IsCaughtUp w head w' evs
  collected head w w' ls evs p c same low high next at r =
      let n = p.highest + 1 - w.next_block in
      let rest = head - p.highest in
      let parts : ls ≡ logs_in chain w.next_block n ++ logs_in chain (p.highest + 1) rest =
        same
        ∙ ap (logs_in chain w.next_block) {x = head + 1 - w.next_block} {y = n + rest}
            (omega (arith, low, high))
        ∙ logs_in-append chain w.next_block n rest
        ∙ ap (λ x. logs_in chain w.next_block n ++ logs_in chain x rest) {x = w.next_block + n}
            {y = p.highest + 1} (omega (arith, low)) in
      let empty : logs_in chain (p.highest + 1) rest ≡ [] =
        none_between p.highest (logs_in chain (p.highest + 1) rest)
          (logs_in-All chain (p.highest + 1) rest c)
          (All-append_right p.highest (logs_in chain w.next_block n)
            (logs_in chain (p.highest + 1) rest)
            (subst (All (λ (l : Log). l.block_number ≤ p.highest)) parts r.covers)) in
      record {
        blocks = n;
        moved = omega (arith, low, next);
        is_read =
            ap (events_of time)
              (sym (parts ∙ ap (λ x. logs_in chain w.next_block n ++ x) empty ∙ append-nil _))
            ∙ r.is_out
            ∙ ap some (sym r.events ∙ at);
        nothing_left =
            ap (λ x. logs_in chain x (head + 1 - x)) next
            ∙ ap (logs_in chain (p.highest + 1)) {x = head + 1 - (p.highest + 1)} {y = rest}
                (omega arith)
            ∙ empty;
      }

  abbrev idle : Watcher → Watcher × List SettlementEvent × Option PollError
  idle w = (w, [], none)

  idle-IsCaughtUp :
      (head : ℕ) (w w' : Watcher) (evs : List SettlementEvent)
      → logs_in chain w.next_block (head + 1 - w.next_block) ≡ []
      → idle w ≡ (w', evs, none)
      → IsCaughtUp w head w' evs
  idle-IsCaughtUp head w w' evs n e =
      let cursor : w ≡ w' = ap (λ x. x.0) e in
      let events : [] ≡ evs = ap (λ x. x.1) e in
      subst (λ x. IsCaughtUp w head x evs) cursor
        (subst (IsCaughtUp w head w) events (stays w head n))

  lower :
      (head from : ℕ) (ls : List Log)
      → All (λ (l : Log). (from ≤ l.block_number) × (l.block_number ≤ head)) ls
      → All (λ (l : Log). from ≤ l.block_number) ls
  lower head from [] r = tt
  lower head from (l ∷ ls) r = (r.0.0, lower head from ls r.1)

  logs-IsCaughtUp :
      (head : ℕ) (client : EventFilterer) (w w' : Watcher) (ls : List Log)
      (evs : List SettlementEvent)
      → IsChain chain
      → IsHonest chain time head client
      → w.next_block ≤ head
      → ls ≡ logs_in chain w.next_block (head + 1 - w.next_block)
      → All (λ (l : Log). (w.next_block ≤ l.block_number) × (l.block_number ≤ head)) ls
      → poll_logs client w (some ls) ≡ (w', evs, none)
      → IsCaughtUp w head w' evs
  logs-IsCaughtUp head client w w' [] evs c h n same r e =
      idle-IsCaughtUp head w w' evs (sym same) e
  logs-IsCaughtUp head client w w' (l ∷ ls) evs c h n same r e =
      let p = collect client w (l ∷ ls) [] w.next_block in
      elim (Option-cases p.error) [
        | inr (er, x) ↦ absurd (ground (arith, e, x))
        | inl x ↦
            let got =
              collect-IsCollected client w w.next_block head (l ∷ ls) [] w.next_block r
                (omega arith) n tt x in
            let bound = h.bounded in
            let low = got.above in
            let high = got.below in
            let whole : (p.highest + 1) % 2 ^ 64 ≡ p.highest + 1 = omega (arith, high, bound) in
            let done : advance client w p
                ≡ (record { next_block = (p.highest + 1) % 2 ^ 64 }, p.events, none) =
              rw x refl in
            let all = sym done ∙ e in
            collected head w w' (l ∷ ls) evs p c same low high
              (ap (λ y. y.0.next_block) (sym all) ∙ whole) (ap (λ y. y.1) all)
              (collect-IsRead chain time head client w (l ∷ ls) [] w.next_block h
                (lower head w.next_block (l ∷ ls) r) x)
      ]

  pub poll-IsCaughtUp :
      (head : ℕ) (client : EventFilterer) (w w' : Watcher) (evs : List SettlementEvent)
      → IsChain chain
      → IsHonest chain time head client
      → poll client w ≡ (w', evs, none)
      → IsCaughtUp w head w' evs
  unfolding poll
  poll-IsCaughtUp head client w w' evs c h e = elim (Option-cases client.block_number) [
    | inl b ↦ absurd (ground (arith, e, b))
    | inr (n, b) ↦
        let at : poll_head client w (some head) ≡ (w', evs, none) =
          ap (λ x. poll_head client w (some x)) (sym (h.at_head n b))
          ∙ ap (poll_head client w) (sym b)
          ∙ e in
        elim (Bool-cases (ltb head w.next_block)) [
          | inl x ↦
              let all : idle w ≡ (w', evs, none) =
                sym (
                  ap
                    (λ y.
                      if y
                      then idle w
                      else poll_logs client w (client.filter_logs w.next_block head))
                    x)
                ∙ at in
              let past : head + 1 - w.next_block ≡ 0 = ground (arith, x) in
              idle-IsCaughtUp head w w' evs (ap (logs_in chain w.next_block) past) all
          | inr x ↦
              let all : poll_logs client w (client.filter_logs w.next_block head)
                  ≡ (w', evs, none) =
                sym (
                  ap
                    (λ y.
                      if y
                      then idle w
                      else poll_logs client w (client.filter_logs w.next_block head))
                    x)
                ∙ at in
              let low : w.next_block ≤ head = ground (arith, x) in
              elim (Option-cases (client.filter_logs w.next_block head)) [
                | inl f ↦ absurd (ground (arith, all, f))
                | inr (ls, f) ↦
                    logs-IsCaughtUp head client w w' ls evs c h low
                      (h.filtered w.next_block ls low f) (client.in_range w.next_block head ls f)
                      (sym (ap (poll_logs client w) f) ∙ all)
              ]
        ]
  ]
