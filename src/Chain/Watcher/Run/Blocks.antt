-- ===== src/Chain/Watcher/Run/Blocks.antt =====
-- A chain that does not lose blocks, and what its node answers.
use void_protocol_oss.Base.{
  ℕ, zero, suc, ◌+◌, ◌-◌, ◌≤◌, ◌<◌, ◌^◌, ◌≡◌, refl, sym, ap, ◌∙◌, Option, none, some, List, [], ◌∷◌,
  ◌++◌, All, All-append, eq_of_some, arith,
}
use mathlib.Core.List.{append_assoc}
use mathlib.Core.Path.{subst}
use void_protocol_oss.Chain.Watcher.{SettlementEvent, Log, EventFilterer, decode_settlement_created}

-- The logs of `n` blocks from a block on.
abbrev pub logs_in : (ℕ → List Log) → ℕ → ℕ → List Log
logs_in chain from zero = []
logs_in chain from (suc n) = chain from ++ logs_in chain (from + 1) n

pub logs_in-append :
    (chain : ℕ → List Log) (from m n : ℕ)
    → logs_in chain from (m + n) ≡ logs_in chain from m ++ logs_in chain (from + m) n
logs_in-append chain from zero n =
    ap (logs_in chain from) {x = 0 + n} {y = n} (omega arith)
    ∙ ap (λ x. logs_in chain x n) {x = from} {y = from + 0} (omega arith)
logs_in-append chain from (suc m) n =
    ap (logs_in chain from) {x = suc m + n} {y = suc (m + n)} (omega arith)
    ∙ ap (λ x. chain from ++ x) (logs_in-append chain (from + 1) m n)
    ∙ sym (append_assoc (chain from) (logs_in chain (from + 1) m) (logs_in chain (from + 1 + m) n))
    ∙ ap (λ x. (chain from ++ logs_in chain (from + 1) m) ++ logs_in chain x n) {x = from + 1 + m}
        {y = from + suc m} (omega arith)

-- Every log stands in its own block.
pub record IsChain (chain : ℕ → List Log) : Type 0 where
  pub placed : (n : ℕ) → All (λ (l : Log). l.block_number ≡ n) (chain n)

weaken_from :
    (a b : ℕ) (ls : List Log)
    → a ≤ b
    → All (λ (l : Log). b ≤ l.block_number) ls
    → All (λ (l : Log). a ≤ l.block_number) ls
weaken_from a b [] h v = tt
weaken_from a b (l ∷ ls) h v = (omega (arith, h, v.0), weaken_from a b ls h v.1)

placed_from :
    (a : ℕ) (ls : List Log)
    → All (λ (l : Log). l.block_number ≡ a) ls
    → All (λ (l : Log). a ≤ l.block_number) ls
placed_from a [] v = tt
placed_from a (l ∷ ls) v = let e = v.0 in (omega (arith, e), placed_from a ls v.1)

pub logs_in-All :
    (chain : ℕ → List Log) (from n : ℕ)
    → IsChain chain
    → All (λ (l : Log). from ≤ l.block_number) (logs_in chain from n)
logs_in-All chain from zero c = tt
logs_in-All chain from (suc n) c =
    All-append _ (chain from) (logs_in chain (from + 1) n)
      (placed_from from (chain from) (c.placed from))
      (weaken_from from (from + 1) (logs_in chain (from + 1) n) (omega arith)
        (logs_in-All chain (from + 1) n c))

-- What the node answers at a head: the logs and the times of one chain, unless it fails.
pub record IsHonest (chain : ℕ → List Log) (time : ℕ → ℕ) (head : ℕ) (client : EventFilterer)
    : Type 0 where
  pub at_head : (n : ℕ) → client.block_number ≡ some n → n ≡ head
  pub bounded : head + 1 < 2 ^ 64
  pub filtered :
      (from : ℕ) (ls : List Log)
      → from ≤ head
      → client.filter_logs from head ≡ some ls
      → ls ≡ logs_in chain from (head + 1 - from)
  pub timed : (n t : ℕ) → client.header_time n ≡ some t → t ≡ time n

abbrev pub timed_event : (ℕ → ℕ) → Option SettlementEvent → Option SettlementEvent
timed_event time none = none
timed_event time (some ev) = some (record ev { block_time_sec = time ev.block_number })

abbrev pub cons_event :
    Option SettlementEvent → Option (List SettlementEvent) → Option (List SettlementEvent)
cons_event none evs = none
cons_event (some ev) none = none
cons_event (some ev) (some evs) = some (ev ∷ evs)

-- The events of logs, in order, each with the time of its block.
abbrev pub events_of : (ℕ → ℕ) → List Log → Option (List SettlementEvent)
events_of time [] = some []
events_of time (l ∷ ls) =
    cons_event (timed_event time (decode_settlement_created l)) (events_of time ls)

cons_event-inv :
    (x : Option SettlementEvent) (y : Option (List SettlementEvent)) (us : List SettlementEvent)
    → cons_event x y ≡ some us
    → (e : SettlementEvent) × (es : List SettlementEvent) × (x ≡ some e)
      × (y ≡ some es)
      × (us ≡ e ∷ es)
cons_event-inv none y us h = absurd (ground (arith, h))
cons_event-inv (some e) none us h = absurd (ground (arith, h))
cons_event-inv (some e) (some es) us h = (e, es, refl, refl, sym (eq_of_some h))

pub events_of-append :
    (time : ℕ → ℕ) (xs ys : List Log) (us vs : List SettlementEvent)
    → events_of time xs ≡ some us
    → events_of time ys ≡ some vs
    → events_of time (xs ++ ys) ≡ some (us ++ vs)
events_of-append time [] ys us vs eu ev = ground (arith, eu, ev)
events_of-append time (x ∷ xs) ys us vs eu ev =
    let (e, es, ex, exs, same) =
      cons_event-inv (timed_event time (decode_settlement_created x)) (events_of time xs) us eu in
    let rest = events_of-append time xs ys es vs exs ev in
    ap (λ a. cons_event a (events_of time (xs ++ ys))) ex
    ∙ ap (cons_event (some e)) rest
    ∙ ap (λ zs. some (zs ++ vs)) (sym same)

weaken_to :
    (a b : ℕ) (ls : List Log)
    → a ≤ b
    → All (λ (l : Log). l.block_number < a) ls
    → All (λ (l : Log). l.block_number < b) ls
weaken_to a b [] h v = tt
weaken_to a b (l ∷ ls) h v = let x = v.0 in (omega (arith, h, x), weaken_to a b ls h v.1)

placed_to :
    (a b : ℕ) (ls : List Log)
    → a < b
    → All (λ (l : Log). l.block_number ≡ a) ls
    → All (λ (l : Log). l.block_number < b) ls
placed_to a b [] h v = tt
placed_to a b (l ∷ ls) h v = let e = v.0 in (omega (arith, h, e), placed_to a b ls h v.1)

logs_in-All_below :
    (chain : ℕ → List Log) (from n : ℕ)
    → IsChain chain
    → All (λ (l : Log). l.block_number < from + n) (logs_in chain from n)
logs_in-All_below chain from zero c = tt
logs_in-All_below chain from (suc n) c =
    All-append _ (chain from) (logs_in chain (from + 1) n)
      (placed_to from (from + suc n) (chain from) (omega arith) (c.placed from))
      (weaken_to (from + 1 + n) (from + suc n) (logs_in chain (from + 1) n) (omega arith)
        (logs_in-All_below chain (from + 1) n c))

both_bounds :
    (from to n : ℕ) (ls : List Log)
    → n ≡ to + 1 - from
    → All (λ (l : Log). from ≤ l.block_number) ls
    → All (λ (l : Log). l.block_number < from + n) ls
    → All (λ (l : Log). (from ≤ l.block_number) × (l.block_number ≤ to)) ls
both_bounds from to n [] e a b = tt
both_bounds from to n (l ∷ ls) e a b =
    let x = a.0 in
    let y = b.0 in ((omega (arith, x), omega (arith, e, x, y)), both_bounds from to n ls e a.1 b.1)

pub chain_range :
    (chain : ℕ → List Log)
    → IsChain chain
    → (from to : ℕ) (ls : List Log) → some (logs_in chain from (to + 1 - from)) ≡ some ls
    → All (λ (l : Log). (from ≤ l.block_number) × (l.block_number ≤ to)) ls
chain_range chain c from to ls e =
    subst (All (λ (l : Log). (from ≤ l.block_number) × (l.block_number ≤ to))) (eq_of_some e) (
      both_bounds from to (to + 1 - from) (logs_in chain from (to + 1 - from)) refl
        (logs_in-All chain from (to + 1 - from) c) (logs_in-All_below chain from (to + 1 - from) c))

-- A node that answers from a chain, at a head.
abbrev pub chain_node : (chain : ℕ → List Log) → IsChain chain → (ℕ → ℕ) → ℕ → EventFilterer
chain_node chain c time head = record {
  block_number = some head;
  filter_logs = λ from to. some (logs_in chain from (to + 1 - from));
  header_time = λ n. some (time n);
  in_range = chain_range chain c;
}

pub chain_node-IsHonest :
    (chain : ℕ → List Log) (c : IsChain chain) (time : ℕ → ℕ) (head : ℕ)
    → head + 1 < 2 ^ 64
    → IsHonest chain time head (chain_node chain c time head)
chain_node-IsHonest chain c time head h = record {
  at_head = λ n e. sym (eq_of_some e);
  bounded = h;
  filtered = λ from ls l e. sym (eq_of_some e);
  timed = λ n t e. sym (eq_of_some e);
}
