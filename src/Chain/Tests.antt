-- ===== src/Chain/Tests.antt =====
-- Concrete runs of the chain client and the submitter, and the theorems at concrete inputs.
use mathlib.Core.List.{flatten, Perm}
use void_protocol_oss.Base.{ℕ, ◌/◌, ◌%◌, ◌^◌, ◌<◌, ◌≡◌, refl, Bool, true, [], ◌∷◌, ◌==◌, arith}
use void_protocol_oss.Base.Bytes.{codes}
use mathlib.Core.Path.{subst}
use void_protocol_oss.Base.{
  ◌≤◌, ◌+◌, ◌*◌, if◌then◌else◌, List, Option, some, none, replicate, ◌++◌, ◌&&◌, leb, All,
  Bool-cases, inl, inr,
}
use void_protocol_oss.Chain.Watcher.{
  SettlementEvent, Log, EventFilterer, Watcher, decode_settlement_created, collect, poll,
}
use void_protocol_oss.Base.Text.{hex}
use void_protocol_oss.Chain.Client.Embedded.{init_embedded, bytecode, init_embedded-hex}
use void_protocol_oss.Chain.Client.{SettlementIntent, derive_tx_nonce, derive_tx_nonce_fields}
use void_protocol_oss.Chain.Submitter.{new_buffered_submitter, enqueue, stop, steal_locked}
use void_protocol_oss.Chain.Submitter.Retry.{submit, submit_loop, submit_outcome, settled}
use void_protocol_oss.Chain.Submitter.Schedule.{
  System, init, hand_out, accept, Reach, here, next, enqueues, stops, lands, IsSound,
}
use void_protocol_oss.Chain.Submitter.Schedule.Sound.{reach-IsSound}
use void_protocol_oss.Chain.Submitter.Schedule.Settled.{settled_after_stop}

derive_tx_nonce_fields_example :
    (derive_tx_nonce 2 7 / 2 ^ 64 ≡ 2)
    × (derive_tx_nonce 2 7 % 2 ^ 64 ≡ 7)
    × (derive_tx_nonce 2 7 < 2 ^ 96)
derive_tx_nonce_fields_example = derive_tx_nonce_fields 2 7 (omega arith) (omega arith)

abbrev intent : ℕ → SettlementIntent
intent n = record { sat_id = n; amount = 5; asset_id = 1; tx_nonce = n; wallet = codes "w" }

-- The first attempt fails, the second does not.
abbrev second_answers : ℕ → Bool
second_answers n = n == 2

second_attempt :
    submit second_answers (intent 1 ∷ []) ≡ ((intent 1 ∷ []) ∷ (intent 1 ∷ []) ∷ [], settled 2)
unfolding submit submit_loop
second_attempt = refl

submit_outcome_example :
    submit second_answers (intent 1 ∷ []) ≡ ((intent 1 ∷ []) ∷ (intent 1 ∷ []) ∷ [], settled 2)
submit_outcome_example = submit_outcome second_answers (intent 1 ∷ []) (omega arith)

-- A limit of two: two intents fill a batch, a third is left for the shutdown, and the second
-- batch is done before the first.
abbrev s0 : System
s0 = init 2 5000

abbrev enqueued : ℕ → System → System
enqueued n s = hand_out (enqueue (intent n) s.sub) (accept (intent n) s)

abbrev s3 : System
s3 = enqueued 3 (enqueued 2 (enqueued 1 s0))

abbrev s4 : System
s4 = hand_out (stop s3.sub) s3

abbrev s5 : System
s5 = record s4 { flight = (intent 1 ∷ intent 2 ∷ []) ∷ []; landed = (intent 3 ∷ []) ∷ [] }

abbrev s6 : System
s6 = record s5 { flight = []; landed = (intent 3 ∷ []) ∷ (intent 1 ∷ intent 2 ∷ []) ∷ [] }

s0-s3 : Reach s0 s3
s0-s3 =
    next (next (next here (enqueues (intent 1) refl)) (enqueues (intent 2) refl))
      (enqueues (intent 3) refl)

s0-s6 : Reach s0 s6
unfolding new_buffered_submitter enqueue stop steal_locked
s0-s6 =
    next
      (next (next s0-s3 (stops refl))
        (lands (intent 3 ∷ []) ((intent 1 ∷ intent 2 ∷ []) ∷ []) [] refl refl))
      (lands (intent 1 ∷ intent 2 ∷ []) [] [] refl refl)

reach-IsSound_example : IsSound 2 s3
reach-IsSound_example = reach-IsSound 2 5000 s3 (omega arith) s0-s3

s6_closed : s6.sub.closed ≡ true
unfolding new_buffered_submitter enqueue stop steal_locked
s6_closed = refl

settled_after_stop_example : Perm (flatten s6.landed) s6.accepted
settled_after_stop_example = settled_after_stop 2 5000 s6 (omega arith) s0-s6 s6_closed refl

abbrev one_log : Log
one_log = record {
  topics =
      replicate 32 0
      ∷ (replicate 31 0 ++ (6 ∷ []))
      ∷ (replicate 31 0 ++ (42 ∷ []))
      ∷ (replicate 12 0 ++ replicate 20 1)
      ∷ [];
  data_bytes = replicate 31 0 ++ (9 ∷ []);
  tx_hash = replicate 32 2;
  block_number = 5;
}

-- A node at block 7, which has one log in block 5.
abbrev node_logs : ℕ → ℕ → Option (List Log)
node_logs from to = some (if leb from 5 && leb 5 to then one_log ∷ [] else [])

node_in_range :
    (from to : ℕ) (logs : List Log)
    → node_logs from to ≡ some logs
    → All (λ (l : Log). (from ≤ l.block_number) × (l.block_number ≤ to)) logs
node_in_range from to logs e = elim (Bool-cases (leb from 5 && leb 5 to)) [
  | inl b ↦
      let one : one_log ∷ [] ≡ logs = ground (arith, e, b) in
      subst (All (λ (l : Log). (from ≤ l.block_number) × (l.block_number ≤ to))) one
        ((ground (arith, b), ground (arith, b)), tt)
  | inr b ↦
      let nothing_there : [] ≡ logs = ground (arith, e, b) in
      subst (All (λ (l : Log). (from ≤ l.block_number) × (l.block_number ≤ to))) nothing_there tt
]

abbrev node : EventFilterer
node = record {
  block_number = some 7;
  filter_logs = node_logs;
  header_time = λ n. some (n * 12);
  in_range = node_in_range;
}

abbrev seen : SettlementEvent
seen = record {
  sat_id = 6;
  amount = 9;
  tx_nonce = 42;
  wallet = replicate 20 1;
  tx_hash = replicate 32 2;
  block_number = 5;
  block_time_sec = 60;
}

abbrev cursor : ℕ → Watcher
cursor n = record { next_block = n }

polled_once : poll node (cursor 0) ≡ (cursor 6, seen ∷ [], none)
unfolding poll collect decode_settlement_created
polled_once = refl

head_bound : (head : ℕ) → node.block_number ≡ some head → head + 1 < 2 ^ 64
head_bound head e = ground (arith, e)

init_embedded-hex_example :
    init_embedded true ((10 ∷ []) ++ ((codes "0x" ++ hex (96 ∷ 128 ∷ [])) ++ (10 ∷ [])))
    ≡ bytecode (96 ∷ 128 ∷ [])
init_embedded-hex_example =
    init_embedded-hex (10 ∷ []) (10 ∷ []) (96 ∷ 128 ∷ []) (refl, tt) (refl, tt)
      (omega arith, (omega arith, tt))
