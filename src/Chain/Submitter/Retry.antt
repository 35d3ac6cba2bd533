-- ===== src/Chain/Submitter/Retry.antt =====
-- `submit` of gateway/internal/core/chain/submitter.go: one attempt, one retry, then the drop.
use void_protocol_oss.Base.{
  ℕ, zero, suc, ◌+◌, ◌≤◌, ◌≡◌, Bool, List, [], ◌∷◌, length, if◌then◌else◌, arith,
}
use void_protocol_oss.Chain.Submitter.{Batch}

abbrev pub submit_retries : ℕ
submit_retries = 2

pub data Verdict : Type 0 where
  nothing dropped : Verdict
  settled : ℕ → Verdict

-- The loop with `rounds` attempts to go, from attempt `attempt`. `answers n` is whether the
-- n-th call of SettleBatch succeeds; the calls made are returned in order.
unfoldable pub submit_loop : ℕ → ℕ → (ℕ → Bool) → Batch → List Batch × Verdict
submit_loop zero attempt answers batch = ([], dropped)
submit_loop (suc rounds) attempt answers batch =
    let rest = submit_loop rounds (attempt + 1) answers batch in
    if answers attempt then (batch ∷ [], settled attempt) else (batch ∷ rest.0, rest.1)

unfoldable pub submit : (ℕ → Bool) → Batch → List Batch × Verdict
unfolding submit_loop
submit answers [] = ([], nothing)
submit answers (i ∷ is) = submit_loop submit_retries 1 answers (i ∷ is)

-- A batch that is not empty is sent whole, once if the first attempt succeeds, and twice if not;
-- it is dropped exactly when both attempts fail.
pub submit_outcome :
    (answers : ℕ → Bool) (batch : Batch)
    → 1 ≤ length batch
    → submit answers batch ≡ (
        if answers 1
        then (batch ∷ [], settled 1)
        else if answers 2
        then (batch ∷ batch ∷ [], settled 2)
        else (batch ∷ batch ∷ [], dropped))
unfolding submit
submit_outcome answers [] h = elim h [ ]
submit_outcome answers (i ∷ is) h = ground arith
