-- ===== src/Chain/Submitter.antt =====
-- gateway/internal/core/chain/submitter.go: the buffered submitter. Each function is what runs
-- under the mutex; a batch that it hands out is submitted after the mutex is released.
pub mod Retry
pub mod Schedule
use void_protocol_oss.Base.{
  ℕ, Bool, true, false, Option, none, some, List, [], ◌∷◌, ◌++◌, length, ltb, leb, ◌==◌, ◌||◌,
  if◌then◌else◌,
}
use void_protocol_oss.Chain.Client.{SettlementIntent}

abbrev pub Batch : Type 0
Batch = List SettlementIntent

abbrev pub default_max_batch : ℕ
default_max_batch = 10

-- Five seconds, in milliseconds.
abbrev pub default_interval : ℕ
default_interval = 5000

-- `timer` is whether a timer is kept, that is, not nil.
pub record BufferedSubmitter : Type 0 where
  pub max_batch : ℕ
  pub interval : ℕ
  pub buf : Batch
  pub timer : Bool
  pub closed : Bool

-- The arguments are Go integers; zero stands for those that are not positive.
unfoldable pub new_buffered_submitter : ℕ → ℕ → BufferedSubmitter
new_buffered_submitter max_batch interval = record {
  max_batch = if leb max_batch 0 then default_max_batch else max_batch;
  interval = if leb interval 0 then default_interval else interval;
  buf = [];
  timer = false;
  closed = false;
}

unfoldable pub steal_locked : BufferedSubmitter → BufferedSubmitter × Batch
steal_locked s = (record s { buf = []; timer = false }, s.buf)

unfoldable pub enqueue : SettlementIntent → BufferedSubmitter → BufferedSubmitter × Option Batch
unfolding steal_locked
enqueue intent s =
    if s.closed
    then (s, none)
    else let buf = s.buf ++ (intent ∷ []) in
      let s' = record s { buf = buf; timer = if length buf == 1 then true else s.timer } in
      if ltb (length buf) s.max_batch
      then (s', none)
      else let (s'', batch) = steal_locked s' in (s'', some batch)

-- `if len(batch) == 0 { return … }` before the submission.
abbrev pub unless_empty : Batch → Option Batch
unless_empty [] = none
unless_empty (i ∷ is) = some (i ∷ is)

-- The number that `Flush` returns is the length of its batch.
unfoldable pub flush : BufferedSubmitter → BufferedSubmitter × Option Batch
unfolding steal_locked
flush s =
    if s.closed then (s, none) else let (s', batch) = steal_locked s in (s', unless_empty batch)

unfoldable pub stop : BufferedSubmitter → BufferedSubmitter × Option Batch
unfolding steal_locked
stop s = let (s', batch) = steal_locked (record s { closed = true }) in (s', unless_empty batch)

unfoldable pub on_timer : BufferedSubmitter → BufferedSubmitter × Option Batch
unfolding steal_locked
on_timer s =
    if s.closed || (length s.buf == 0)
    then (s, none)
    else let (s', batch) = steal_locked s in (s', some batch)
