-- ===== src/Chain/Watcher/Run.antt =====
-- gateway/internal/core/chain/watcher.go: NewWatcher and Run, over the rounds of the ticker. The
-- handler acts on a state of its caller's.
pub mod Blocks
pub mod Reading
pub mod Once
pub mod Whole
pub mod Live
pub mod Failing
use void_protocol_oss.Base.{ℕ, zero, suc, Bool, true, false, Option, none, some, List, [], ◌∷◌}
use void_protocol_oss.Base.Ints.{ℤ, pos, negsuc}
use void_protocol_oss.Chain.Watcher.{SettlementEvent, EventFilterer, PollError, Watcher, poll}

-- Two seconds, in nanoseconds.
abbrev pub default_watch_interval : ℕ
default_watch_interval = 2000000000

-- `has_event` says whether the contract's ABI has the event, none is the error that it has not. The
-- watcher comes with the interval of its ticker.
unfoldable pub new_watcher : Bool → ℕ → ℤ → Option (Watcher × ℕ)
new_watcher false from_block interval = none
new_watcher true from_block (pos (suc n)) = some (record { next_block = from_block }, suc n)
new_watcher true from_block (pos zero) =
    some (record { next_block = from_block }, default_watch_interval)
new_watcher true from_block (negsuc n) =
    some (record { next_block = from_block }, default_watch_interval)

-- What the node answers in a round, and whether the context is done after it.
pub record Round : Type 0 where
  pub client : EventFilterer
  pub is_done : Bool

-- How far the loop is: it waits for the next tick, or it has returned.
pub data Progress : Type 0 where
  going cancelled : Progress
  failed : PollError → Progress

module _ {ℓ} {S : Type ℓ} (handler : S → SettlementEvent → S) where
  abbrev pub handle_all : S → List SettlementEvent → S
  handle_all s [] = s
  handle_all s (ev ∷ evs) = handle_all (handler s ev) evs

  unfoldable pub run : List Round → Watcher → S → Watcher × S × Progress
  run [] w s = (w, s, going)
  run (r ∷ rs) w s =
      let polled = poll r.client w in
      elim polled.2 [
        | some e ↦ (polled.0, s, failed e)
        | none ↦ elim r.is_done [
          | true ↦ (polled.0, handle_all s polled.1, cancelled)
          | false ↦ run rs polled.0 (handle_all s polled.1)
        ]
      ]
