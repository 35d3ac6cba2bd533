-- ===== src/Chain/Watcher/Run/Failing.antt =====
-- A poll that ends with an error.
use void_protocol_oss.Base.{
  ℕ, ◌≡◌, refl, sym, ap, ◌∙◌, inl, inr, Option, none, some, List, [], ◌∷◌, ltb, Bool-cases,
  Option-cases, if◌then◌else◌, arith,
}
use void_protocol_oss.Chain.Watcher.{
  Log, EventFilterer, PollError, Watcher, Polled, collect, advance, poll_logs, poll_head, poll,
}

advance_error_stays :
    (client : EventFilterer) (w : Watcher) (er : PollError) (p : Polled)
    → (advance client w p).2 ≡ some er
    → (advance client w p).0 ≡ w
advance_error_stays client w er p e = elim (Option-cases p.error) [
  | inl x ↦ absurd (ground (arith, e, x))
  | inr (y, x) ↦ rw x refl
]

logs_error_stays :
    (client : EventFilterer) (w : Watcher) (er : PollError) (ls : Option (List Log))
    → (poll_logs client w ls).2 ≡ some er
    → (poll_logs client w ls).0 ≡ w
logs_error_stays client w er none e = refl
logs_error_stays client w er (some []) e = refl
logs_error_stays client w er (some (l ∷ ls)) e =
    advance_error_stays client w er (collect client w (l ∷ ls) [] w.next_block) e

head_error_stays :
    (client : EventFilterer) (w : Watcher) (er : PollError) (h : Option ℕ)
    → (poll_head client w h).2 ≡ some er
    → (poll_head client w h).0 ≡ w
head_error_stays client w er none e = refl
head_error_stays client w er (some head) e = elim (Bool-cases (ltb head w.next_block)) [
  | inl b ↦ absurd (ground (arith, e, b))
  | inr b ↦
      let logs : poll_head client w (some head)
          ≡ poll_logs client w (client.filter_logs w.next_block head) =
        ap
          (λ x.
            if x then (w, [], none) else poll_logs client w (client.filter_logs w.next_block head))
          b in
      ap (λ x. x.0) logs
      ∙ logs_error_stays client w er (client.filter_logs w.next_block head)
          (ap (λ x. x.2) (sym logs) ∙ e)
]

-- A poll with an error leaves the cursor.
pub poll_error_stays :
    (client : EventFilterer) (w : Watcher) (er : PollError)
    → (poll client w).2 ≡ some er
    → (poll client w).0 ≡ w
unfolding poll
poll_error_stays client w er e = head_error_stays client w er client.block_number e
