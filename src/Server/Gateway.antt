-- ===== src/Server/Gateway.antt =====
-- gateway/cmd/server/main.go while the server runs: the routes, the submitter's timer and the
-- goroutine of the receipts, whose steps interleave. A step is one request, one firing of the
-- timer, one poll, or one call of the watcher's handler.
pub mod Rows
pub mod Intents
pub mod Tracked
pub mod Again
pub mod Launched
pub mod Kept
pub mod Acked
use void_protocol_oss.Base.{
  ℕ, ◌+◌, Bool, true, false, ◌&&◌, Option, none, some, List, [], ◌∷◌, ◌++◌, is_some, if◌then◌else◌,
}
use void_protocol_oss.Base.Bytes.{Bytes}
use void_protocol_oss.Wire.Crc.{Crc32}
use void_protocol_oss.Wire.Signature.{Ed25519}
use void_protocol_oss.Protocol.Kaitai.{Kaitai}
use void_protocol_oss.Registry.{Registry}
use void_protocol_oss.Chain.Client.{SettlementIntent}
use void_protocol_oss.Chain.Submitter.{Batch, BufferedSubmitter, on_timer, stop}
use void_protocol_oss.Chain.Watcher.{SettlementEvent, EventFilterer, PollError, Watcher, poll}
use void_protocol_oss.Receipt.Json.{Json}
use void_protocol_oss.Receipt.Store.{Store, WriteIo}
use void_protocol_oss.Receipt.Processor.{EthText, Processor}
use void_protocol_oss.Ingest.{Reply, ingest_packet}
use void_protocol_oss.Egress.{Response, AckRequest, handle_egress_pending, handle_egress_ack}
use void_protocol_oss.Server.{Receipts, Server, Receiving, on_settlement}
use void_protocol_oss.Server.Payments.{hand_over}

-- `v1.POST("/ingest", …)`, `egress.GET("/pending", …)` and `egress.POST("/ack", …)`.
pub data Request : Type 0 where
  post_ingest : Option Bytes → Request
  get_pending : Request
  post_ack : WriteIo → Option AckRequest → Request

pub data Answer : Type 0 where
  ingested : Reply → Answer
  egressed : Response → Answer

-- The goroutine of the receipts: `inbox` is what the last poll returned and the handler has not had
-- yet, and `running` is whether `watcher.Run` has not returned.
pub record Worker : Type 0 where
  pub receiving : Receiving
  pub watcher : Watcher
  pub inbox : List SettlementEvent
  pub running : Bool

-- `handlers.EgressStore` is the processor's store.
pub record Gateway : Type 0 where
  pub registry : Registry
  pub submitter : Option BufferedSubmitter
  pub worker : Option Worker

abbrev pub store_of : Worker → Store
store_of k = k.receiving.processor.store

abbrev pub egress_store : Option Worker → Option Store
egress_store none = none
egress_store (some k) = some (store_of k)

-- A handler has changed the store in place.
abbrev pub with_store : Option Worker → Option Store → Option Worker
with_store none s = none
with_store (some k) none = some k
with_store (some k) (some s) = some (record k {
  receiving = record k.receiving { processor = record k.receiving.processor { store = s } };
})

abbrev pub idle_worker : Receipts → Worker
idle_worker r = record {
  receiving = record { processor = r.processor; calls = 0; errors = [] };
  watcher = r.watcher;
  inbox = [];
  running = true;
}

abbrev pub worker_of : Option Receipts → Option Worker
worker_of none = none
worker_of (some r) = some (idle_worker r)

unfoldable pub launch : Server → Gateway
launch s = record { registry = s.registry; submitter = s.submitter; worker = worker_of s.receipts }

pub data Input : Type 0 where
  requests : Request → Input
  timer_fires : Input
  polls : EventFilterer → Input
  handles : WriteIo → Input

-- What a step gives to the outside: the answer of a request, and a batch for the contract.
pub record Output : Type 0 where
  pub response : Option Answer
  pub batch : Option Batch

abbrev pub quiet : Output
quiet = record { response = none; batch = none }

-- `if Submitter != nil`, and a call of one of its methods.
abbrev pub on_submitter :
    (BufferedSubmitter → BufferedSubmitter × Option Batch)
    → Option BufferedSubmitter
    → Option BufferedSubmitter × Option Batch
on_submitter f none = (none, none)
on_submitter f (some s) = let r = f s in (some r.0, r.1)

abbrev pub polled_worker : Worker → Watcher × List SettlementEvent × Option PollError → Worker
polled_worker k (w, evs, some e) = record k { watcher = w; running = false }
polled_worker k (w, evs, none) = record k { watcher = w; inbox = evs }

-- The loop polls again when the handler has had every event of the last poll.
abbrev pub when_idle : Bool → List SettlementEvent → Worker → Worker → Worker
when_idle false evs next k = k
when_idle true [] next k = next
when_idle true (ev ∷ evs) next k = k

unfoldable pub poll_worker : EventFilterer → Worker → Worker
poll_worker client k = when_idle k.running k.inbox (polled_worker k (poll client k.watcher)) k

-- The deferred clean-up of the server: `submitter.Stop()`.
unfoldable pub cleanup : Gateway → Gateway × Option Batch
cleanup g = let r = on_submitter stop g.submitter in (record g { submitter = r.0 }, r.1)

module _ (eth : EthText) (ed : Ed25519) (crc : Crc32) (json : Json) (k : Kaitai)
    (hex_to_address : Bytes → Bytes) where
  abbrev pub next_event : WriteIo → List SettlementEvent → Worker → Worker
  next_event io [] w = w
  next_event io (ev ∷ evs) w = record w {
    receiving = on_settlement eth ed crc json (λ n. io) w.receiving ev;
    inbox = evs;
  }

  unfoldable pub handle_worker : WriteIo → Worker → Worker
  handle_worker io w = next_event io w.inbox w

  abbrev pub on_worker : (Worker → Worker) → Option Worker → Option Worker
  on_worker f none = none
  on_worker f (some w) = some (f w)

  abbrev pub ingest_answered : Gateway → Reply × Option SettlementIntent → Gateway × Output
  ingest_answered g (reply, intent) =
      let r = on_submitter (hand_over intent) g.submitter in
      (record g { submitter = r.0 }, record { response = some (ingested reply); batch = r.1 })

  abbrev pub ack_answered : Gateway → Option Store × Response → Gateway × Output
  ack_answered g (s, response) = (
    record g { worker = with_store g.worker s },
    record { response = some (egressed response); batch = none },
  )

  unfoldable pub route : Request → Gateway → Gateway × Output
  route (post_ingest raw) g =
      ingest_answered g (ingest_packet k ed crc hex_to_address g.registry (is_some g.submitter) raw)
  route get_pending g = (
    g,
    record {
      response = some (egressed (handle_egress_pending (egress_store g.worker)));
      batch = none;
    },
  )
  route (post_ack io req) g = ack_answered g (handle_egress_ack json io req (egress_store g.worker))

  unfoldable pub step : Input → Gateway → Gateway × Output
  step (requests r) g = route r g
  step timer_fires g =
      let r = on_submitter on_timer g.submitter in
      (record g { submitter = r.0 }, record { response = none; batch = r.1 })
  step (polls client) g = (record g { worker = on_worker (poll_worker client) g.worker }, quiet)
  step (handles io) g = (record g { worker = on_worker (handle_worker io) g.worker }, quiet)

  unfoldable pub serve_all : List Input → Gateway → Gateway × List Output
  serve_all [] g = (g, [])
  serve_all (i ∷ is) g =
      let first = step i g in let rest = serve_all is first.0 in (rest.0, first.1 ∷ rest.1)
