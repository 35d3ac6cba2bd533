-- ===== src/Chain/Submitter/Schedule.antt =====
-- Every interleaving of callers, timers, a shutdown and the submissions that are under way.
-- A timer may fire at any time: `Stop` on a timer does not recall a firing that has begun.
pub mod Sound
pub mod Settled
use mathlib.Core.List.{flatten, append_assoc, append-nil, perm_middle, Perm}
use mathlib.Core.List.Perm
use mathlib.Core.Path.{subst}
use void_protocol_oss.Base.{
  ℕ, ◌+◌, ◌≤◌, ◌<◌, ◌≡◌, ◌≢◌, refl, sym, ap, ◌∙◌, ◌⊎◌, inl, inr, Bool, true, false, not, Option,
  none, some, List, [], ◌∷◌, ◌++◌, length, length-append, All, All-append, ltb, leb, ◌==◌, ◌||◌,
  Bool-cases, eq_of_some, if◌then◌else◌, arith,
}
use void_protocol_oss.Chain.Client.{SettlementIntent}
use void_protocol_oss.Chain.Submitter.{
  Batch, BufferedSubmitter, new_buffered_submitter, enqueue, flush, stop, on_timer, steal_locked,
  unless_empty,
}

-- The submitter, what was accepted, the batches in the order in which they were taken, and those
-- taken that are being submitted or have been.
pub record System : Type 0 where
  pub sub : BufferedSubmitter
  pub accepted : Batch
  pub taken : List Batch
  pub flight : List Batch
  pub landed : List Batch

abbrev pub init : ℕ → ℕ → System
init max_batch interval = record {
  sub = new_buffered_submitter max_batch interval;
  accepted = [];
  taken = [];
  flight = [];
  landed = [];
}

-- The caller goes on with its batch outside the mutex.
abbrev pub hand_out : BufferedSubmitter × Option Batch → System → System
hand_out (sub, none) s = record s { sub = sub }
hand_out (sub, some b) s = record s {
  sub = sub;
  taken = s.taken ++ (b ∷ []);
  flight = s.flight ++ (b ∷ []);
}

abbrev pub accept : SettlementIntent → System → System
accept i s = if s.sub.closed then s else record s { accepted = s.accepted ++ (i ∷ []) }

pub data Step (s s' : System) : Type 0 where
  enqueues : (i : SettlementIntent) → s' ≡ hand_out (enqueue i s.sub) (accept i s) → Step s s'
  flushes : s' ≡ hand_out (flush s.sub) s → Step s s'
  stops : s' ≡ hand_out (stop s.sub) s → Step s s'
  fires : s' ≡ hand_out (on_timer s.sub) s → Step s s'
  lands :
      (b : Batch) (xs ys : List Batch)
      → s.flight ≡ xs ++ (b ∷ ys)
      → s' ≡ record s { flight = xs ++ ys; landed = s.landed ++ (b ∷ []) }
      → Step s s'

pub data Reach (s : System) : System → Type 0 where
  here : Reach s s
  next : {t u : System} → Reach s t → Step t u → Reach s u

-- What holds between the critical sections, for a submitter whose limit is `m`.
pub record IsSound (m : ℕ) (s : System) : Type 0 where
  pub limit : s.sub.max_batch ≡ m
  pub bounded : length s.sub.buf < m
  pub timed : s.sub.timer ≡ not (length s.sub.buf == 0)
  pub shut : s.sub.closed ≡ true → length s.sub.buf ≡ 0
  pub sized : All (λ b. (1 ≤ length b) × (length b ≤ m)) s.taken
  pub conserved : s.accepted ≡ flatten s.taken ++ s.sub.buf
  pub flown : Perm (s.landed ++ s.flight) s.taken
