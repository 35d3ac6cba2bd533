-- ===== src/Server/Gateway/Again.antt =====
-- A gateway that is started again over the file that it left.
use void_protocol_oss.Base.{
  ◌≡◌, sym, ap, ◌∙◌, some, List, [], ◌∷◌, ◌++◌, length, All, All-append, eq_of_some, arith,
}
use mathlib.Core.Path.{subst}
use void_protocol_oss.Base.Bytes.{Bytes}
use void_protocol_oss.Base.Text.{hex_decode, hex_decode-hex}
use void_protocol_oss.Wire.Crc.{Crc32}
use void_protocol_oss.Wire.Signature.{Ed25519}
use void_protocol_oss.Protocol.Kaitai.{Kaitai}
use void_protocol_oss.Receipt.Json.{Json}
use void_protocol_oss.Receipt.Store.{Store, ok, new_store}
use void_protocol_oss.Receipt.Store.Recovery.{Covers}
use void_protocol_oss.Receipt.Store.History.{
  Event, restarts, IsWhole, fresh, run, run-append, run-IsDurable, durable_after, then_run,
  eq_of_ok,
}
use void_protocol_oss.Receipt.Processor.{EthText}
use void_protocol_oss.Server.{
  Env, World, done, Receipts, Server, or_default, default_receipts_path, demo_seller_seed_hex,
  start,
}
use void_protocol_oss.Server.Started.{demo_seed, hex-demo_seed}
use void_protocol_oss.Server.Recorded.{IsReady}
use void_protocol_oss.Server.Gateway.{
  Worker, Gateway, store_of, idle_worker, worker_of, launch, Input, serve_all,
}
use void_protocol_oss.Server.Gateway.Rows.{IsSound, IsRunning}
use void_protocol_oss.Server.Gateway.Rows.Steps.{serve_all-Leads}
use void_protocol_oss.Server.Gateway.Kept.{HasHistory}
use void_protocol_oss.Server.Gateway.Launched.{IsBuilt, start-IsBuilt}

module _ (env : Env) (world : World) (json : Json) where
  -- The seed of the demo has 32 bytes.
  idle-IsReady :
      (rc : Receipts)
      → IsBuilt env world json rc
      → env.receipts_seller_seed ≡ []
      → IsReady rc.processor
  idle-IsReady rc b d =
      let seed : some demo_seed ≡ some rc.processor.seed =
        sym (hex_decode-hex demo_seed (ground arith))
        ∙ ap hex_decode hex-demo_seed
        ∙ ap (λ x. hex_decode (or_default x demo_seller_seed_hex)) (sym d)
        ∙ b.seed in
      let count = b.first_count in
      record { seeded = ap length (sym (eq_of_some seed)); counted = omega (arith, count) }

  module _ (eth : EthText) (ed : Ed25519) (crc : Crc32) (k : Kaitai)
      (hex_to_address : Bytes → Bytes) where
    -- In a running gateway over a history without torn writes, however requests, firings of the
    -- timer, polls and handled settlements interleave, over whole writes and nodes of the escrow
    -- contract: a start with the demo's seed that loads the file that the gateway left, and ends
    -- with a store, has every receipt that was in the store before them, as it was or dispatched,
    -- hands out the very rows that its processor keeps, reads the chain from block 0 on, and is
    -- again a running gateway over a history without torn writes.
    pub restarted_gateway_continues :
        (is : List Input) (g : Gateway) (w w' : Worker) (s : Server) (rc : Receipts)
        → All IsSound is
        → IsWhole (restarts world.load_io)
        → env.receipts_seller_seed ≡ []
        → g.worker ≡ some w
        → IsRunning w
        → HasHistory json (store_of w)
        → (serve_all eth ed crc json k hex_to_address is g).0.worker ≡ some w'
        → world.file (or_default env.receipts_path default_receipts_path) ≡ (store_of w').content
        → start env world ed json ≡ done s
        → s.receipts ≡ some rc
        → ((launch s).worker ≡ some (idle_worker rc))
          × (rc.egress_store ≡ rc.processor.store)
          × (rc.watcher.next_block ≡ 0)
          × Covers (store_of w).records rc.processor.store.records
          × IsRunning (idle_worker rc)
          × HasHistory json rc.processor.store
    unfolding launch run void_protocol_oss.Receipt.Store.History.step
    restarted_gateway_continues is g w w' s rc sound whole d e v (es, ws, h) e' f started r =
        let built = start-IsBuilt env world json ed s rc started r in
        let (w₁, e₁, lead) = serve_all-Leads eth ed crc json k hex_to_address is g w sound e v in
        let same : w₁ ≡ w' = eq_of_some (sym e₁ ∙ e') in
        let last : run json (restarts world.load_io ∷ []) (store_of w₁) ≡ ok rc.processor.store =
          ap (λ (x : Worker). then_run ok (new_store json world.load_io (store_of x).content)) same
          ∙ ap (λ x. then_run ok (new_store json world.load_io x)) (sym f)
          ∙ ap (then_run ok) built.loads in
        let all = lead.events ++ (restarts world.load_io ∷ []) in
        let whole_all : All IsWhole all =
          All-append IsWhole lead.events (restarts world.load_io ∷ []) lead.whole (whole, tt) in
        let runs =
          run-append json lead.events (restarts world.load_io ∷ []) (store_of w) (store_of w₁)
            rc.processor.store lead.runs last in
        let (z, ez, _, covers) =
          run-IsDurable json all (store_of w) whole_all (durable_after json es (store_of w) ws h) in
        (
          ap worker_of r,
          built.shared,
          built.from_genesis,
          subst (λ (x : Store). Covers (store_of w).records x.records) (eq_of_ok (sym ez ∙ runs))
              covers,
          record { ready = idle-IsReady rc built d; due = tt },
          (
            es ++ all,
            All-append IsWhole es all ws whole_all,
            run-append json es all fresh (store_of w) rc.processor.store h runs,
          ),
        )
