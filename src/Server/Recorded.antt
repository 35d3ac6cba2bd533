-- ===== src/Server/Recorded.antt =====
-- The receipts of the settlements: the watcher's loop with the processor as its handler.
use void_protocol_oss.Base.{
  ℕ, ◌^◌, ◌≤◌, ◌<◌, ◌≡◌, refl, sym, ap, inl, inr, true, Option, none, some, List, [], ◌∷◌, length,
  All, is_some, Bool-cases, arith,
}
use mathlib.Core.Path.{subst}
use void_protocol_oss.Base.Bytes.{Bytes}
use void_protocol_oss.Base.Dict.{bytes_Eq, lookup, lookup-insert}
use void_protocol_oss.Wire.Crc.{Crc32}
use void_protocol_oss.Wire.Signature.{Ed25519}
use void_protocol_oss.Chain.Watcher.{SettlementEvent, Log, Watcher}
use void_protocol_oss.Chain.Watcher.Run.{Round, going, handle_all, run}
use void_protocol_oss.Chain.Watcher.Run.Blocks.{IsChain}
use void_protocol_oss.Chain.Watcher.Run.Whole.{AreHonest, IsHandled, run_handles_each_once}
use void_protocol_oss.Receipt.Record.{Record, key_of, default_status}
use void_protocol_oss.Receipt.Json.{Json}
use void_protocol_oss.Receipt.Store.{Store, WriteIo, append, write_line_locked, write_out}
use void_protocol_oss.Receipt.Processor.{EthText, Processor, HandleError, handle}
use void_protocol_oss.Receipt.Processor.Outcome.{key_of_event, receipt}
use void_protocol_oss.Receipt.Processor.Replay.{append_keeps, replay_noop, handle_fresh}
use void_protocol_oss.Server.{Receiving, received, on_settlement}

-- A processor's seed and its sequence count.
pub record IsReady (p : Processor) : Type 0 where
  pub seeded : length p.seed ≡ 32
  pub counted : p.seq_count < 2 ^ 14

module _ (eth : EthText) (ed : Ed25519) (crc : Crc32) (json : Json) (io : ℕ → WriteIo) where
  -- The store has a receipt for the event.
  abbrev pub IsRecorded : Store → SettlementEvent → Type 0
  IsRecorded s ev = is_some (lookup (key_of_event eth ed crc json ev) s.records) ≡ true

  append_others :
      (w : WriteIo) (r : Record) (s : Store) (key : Bytes)
      → is_some (lookup key s.records) ≡ true
      → is_some (lookup key (append json w r s).0.records) ≡ true
  unfolding append write_line_locked write_out
  append_others w r s key h =
      ground (arith, h, lookup-insert (key_of r) key (default_status r) s.records)

  -- What one call of Handle leaves.
  pub record IsStep (p : Processor) (ev : SettlementEvent) (o : Processor × Option HandleError)
      : Type 0 where
    pub ready : IsReady o.0
    pub keeps :
        (key : Bytes)
        → is_some (lookup key p.store.records) ≡ true
        → is_some (lookup key o.0.store.records) ≡ true
    pub records : o.1 ≡ none → IsRecorded o.0.store ev

  pub handle-IsStep :
      (w : WriteIo) (p : Processor) (ev : SettlementEvent)
      → IsReady p
      → IsStep p ev (handle eth ed crc json w ev p)
  handle-IsStep w p ev v =
      elim (Bool-cases (is_some (lookup (key_of_event eth ed crc json ev) p.store.records))) [
        | inl x ↦
            subst (IsStep p ev) (sym (replay_noop eth ed crc json w ev p x))
              (record { ready = v; keeps = λ key h. h; records = λ e. x })
        | inr x ↦
            let s = append json w (receipt eth ed crc json ev p) p.store in
            subst (IsStep p ev) (sym (handle_fresh eth ed crc json w ev p v.seeded v.counted x))
              (record {
                ready = record { seeded = v.seeded; counted = omega arith };
                keeps = append_others w (receipt eth ed crc json ev p) p.store;
                records = append_keeps eth ed crc json w (receipt eth ed crc json ev p) p.store;
              })
      ]

  record IsReceived (r : Receiving) (evs : List SettlementEvent) (r' : Receiving) : Type 0 where
    keeps :
        (key : Bytes)
        → is_some (lookup key r.processor.store.records) ≡ true
        → is_some (lookup key r'.processor.store.records) ≡ true
    failures : length r.errors ≤ length r'.errors
    recorded : r'.errors ≡ [] → All (IsRecorded r'.processor.store) evs

  received_then :
      (r r' : Receiving) (ev : SettlementEvent) (evs : List SettlementEvent)
      (o : Processor × Option HandleError)
      → IsStep r.processor ev o
      → IsReceived (received eth ed crc json io r o) evs r'
      → IsReceived r (ev ∷ evs) r'
  received_then r r' ev evs (p, none) s v = record {
    keeps = λ key h. v.keeps key (s.keeps key h);
    failures = v.failures;
    recorded = λ e. (v.keeps (key_of_event eth ed crc json ev) (s.records refl), v.recorded e);
  }
  received_then r r' ev evs (p, some x) s v =
      let f = v.failures in
      record {
        keeps = λ key h. v.keeps key (s.keeps key h);
        failures = omega (arith, f);
        recorded = λ e. let l = ap length e in absurd (omega (arith, f, l));
      }

  received-IsReady :
      (r : Receiving) (o : Processor × Option HandleError)
      → IsReady o.0
      → IsReady (received eth ed crc json io r o).processor
  received-IsReady r (p, none) v = v
  received-IsReady r (p, some x) v = v

  handle_all-IsReceived :
      (evs : List SettlementEvent) (r : Receiving)
      → IsReady r.processor
      → IsReceived r evs (handle_all (on_settlement eth ed crc json io) r evs)
  unfolding on_settlement
  handle_all-IsReceived [] r v = record {
    keeps = λ key h. h;
    failures = omega arith;
    recorded = λ e. tt;
  }
  handle_all-IsReceived (ev ∷ evs) r v =
      let o = handle eth ed crc json (io r.calls) ev r.processor in
      let s = handle-IsStep (io r.calls) r.processor ev v in
      received_then r _ ev evs o s
        (handle_all-IsReceived evs (received eth ed crc json io r o) (received-IsReady r o s.ready))

  -- While the loop of the watcher runs with the processor as its handler, over the rounds of one
  -- chain, and no call has reported an error, the store has a receipt for each settlement from
  -- its cursor to every head that it has seen, and each has been handed to the processor once.
  pub run-IsRecorded :
      (chain : ℕ → List Log) (time : ℕ → ℕ) (rounds : List Round) (heads : List ℕ) (w w' : Watcher)
      (r r' : Receiving)
      → IsChain chain
      → AreHonest chain time rounds heads
      → IsReady r.processor
      → run (on_settlement eth ed crc json io) rounds w r ≡ (w', r', going)
      → r'.errors ≡ []
      → (h : IsHandled chain time (on_settlement eth ed crc json io) heads w r w' r') × All
          (IsRecorded r'.processor.store)
          h.events
  run-IsRecorded chain time rounds heads w w' r r' c v ready e none_left =
      let h =
        run_handles_each_once chain time (on_settlement eth ed crc json io) rounds heads w w' r r' c
          v e in
      (
        h,
        (subst (IsReceived r h.events) h.handled (handle_all-IsReceived h.events r ready)).recorded
            none_left,
      )
