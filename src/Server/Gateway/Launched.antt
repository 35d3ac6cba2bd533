-- ===== src/Server/Gateway/Launched.antt =====
-- The gateway that a start leaves: its store, its processor and its watcher.
use void_protocol_oss.Base.{
  ℕ, ◌≡◌, sym, ap, ◌∙◌, Bool, true, false, Option, none, some, [], length, eq_of_some, ◌==◌,
  Bool-cases, inl, inr, if◌then◌else◌, arith,
}
use mathlib.Core.Path.{subst}
use void_protocol_oss.Base.Bytes.{Bytes}
use void_protocol_oss.Base.Ints.{pos}
use void_protocol_oss.Base.Text.{hex_decode}
use void_protocol_oss.Wire.Signature.{Ed25519}
use void_protocol_oss.Receipt.Json.{Json}
use void_protocol_oss.Receipt.Store.{Store, Loaded, ok, err, new_store}
use void_protocol_oss.Receipt.Processor.{Processor, new_processor, seller_apid_100}
use void_protocol_oss.Chain.Watcher.{Watcher}
use void_protocol_oss.Chain.Watcher.Run.{new_watcher, default_watch_interval}
use void_protocol_oss.Registry.{Registry, DemoKeyError, initialize, load_flat_sat_demo_key}
use void_protocol_oss.Server.{
  Env, World, Outcome, done, and_then, require, given, loaded, Receipts, Server, ChainDeps,
  or_default, default_receipts_path, demo_seller_seed_hex, maybe_init_chain, directory_failed,
  seed_failed, processor_failed, watcher_failed, start_receipt_watcher, wired, with_registry, start,
}
use void_protocol_oss.Server.Started.{and_then-inv, done-injective}

loaded-inv : (x : Loaded Store) (s : Store) → loaded x ≡ done s → x ≡ ok s
loaded-inv (ok t) s e = ap ok (done-injective e)
loaded-inv (err er) s e = absurd (ground (arith, e))

given-inv : {A : Type 0} (x : Option A) (er : _) (a : A) → given x er ≡ done a → x ≡ some a
given-inv (some b) er a e = ap some (done-injective e)
given-inv none er a e = absurd (ground (arith, e))

-- The parts of the receipts' goroutine as the start makes them.
pub record IsBuilt (env : Env) (world : World) (json : Json) (rc : Receipts) : Type 0 where
  pub shared : rc.egress_store ≡ rc.processor.store
  pub loads :
      new_store json world.load_io (world.file (or_default env.receipts_path default_receipts_path))
      ≡ ok rc.processor.store
  pub seed :
      hex_decode (or_default env.receipts_seller_seed demo_seller_seed_hex) ≡ some rc.processor.seed
  pub first_count : rc.processor.seq_count ≡ 0
  pub from_genesis : rc.watcher.next_block ≡ 0

abbrev first_processor : Store → Bytes → Processor
first_processor s seed = record {
  store = s;
  seller_apid = seller_apid_100;
  seed = seed;
  seq_count = 0;
}

new_processor-inv :
    (s : Store) (seed : Bytes) (p : Processor)
    → new_processor (some s) seller_apid_100 seed ≡ some p
    → (p.store ≡ s) × (p.seed ≡ seed) × (p.seq_count ≡ 0)
unfolding new_processor
new_processor-inv s seed p e = elim (Bool-cases (length seed == 0)) [
  | inl b ↦ absurd (ground (arith, e, b))
  | inr b ↦
      let same : first_processor s seed ≡ p =
        eq_of_some (sym (ap (λ x. if x then none else some (first_processor s seed)) b) ∙ e) in
      (
        ap (λ (x : Processor). x.store) (sym same),
        ap (λ (x : Processor). x.seed) (sym same),
        ap (λ (x : Processor). x.seq_count) (sym same),
      )
]

module _ (env : Env) (world : World) (json : Json) where
  abbrev pub receipts_of : Store → Processor → Watcher × ℕ → Receipts
  receipts_of store processor (watcher, interval) = record {
    egress_store = store;
    processor = processor;
    watcher = watcher;
    interval = interval;
  }

  abbrev pub processed_receipts : Store → Processor → Outcome Receipts
  processed_receipts store processor =
      and_then (given (new_watcher world.has_event 0 (pos default_watch_interval)) watcher_failed)
        λ w. done (receipts_of store processor w)

  abbrev pub seeded_receipts : Store → Bytes → Outcome Receipts
  seeded_receipts store seed =
      and_then (given (new_processor (some store) seller_apid_100 seed) processor_failed)
        (processed_receipts store)

  abbrev pub opened_receipts : Store → Outcome Receipts
  opened_receipts store =
      and_then
        (given (hex_decode (or_default env.receipts_seller_seed demo_seller_seed_hex)) seed_failed)
        (seeded_receipts store)

  new_watcher-inv :
      (b : Bool) (w : Watcher × ℕ)
      → new_watcher b 0 (pos default_watch_interval) ≡ some w
      → w.0.next_block ≡ 0
  unfolding new_watcher
  new_watcher-inv true w e = ap (λ (x : Watcher × ℕ). x.0.next_block) (sym (eq_of_some e))
  new_watcher-inv false w e = absurd (ground (arith, e))

  abbrev path : Bytes
  path = or_default env.receipts_path default_receipts_path

  start_receipt_watcher-IsBuilt :
      (rc : Receipts) → start_receipt_watcher env world json ≡ done rc → IsBuilt env world json rc
  unfolding start_receipt_watcher
  start_receipt_watcher-IsBuilt rc e =
      let (u, _, e₁) =
        and_then-inv (require (world.makes_directory path) directory_failed)
          (λ _. and_then (loaded (new_store json world.load_io (world.file path))) opened_receipts)
          rc e in
      let (store, l, e₂) =
        and_then-inv (loaded (new_store json world.load_io (world.file path))) opened_receipts rc
          e₁ in
      let (seed, h, e₃) =
        and_then-inv
          (given (hex_decode (or_default env.receipts_seller_seed demo_seller_seed_hex))
            seed_failed)
          (seeded_receipts store) rc e₂ in
      let (p, made, e₄) =
        and_then-inv (given (new_processor (some store) seller_apid_100 seed) processor_failed)
          (processed_receipts store) rc e₃ in
      let (w, watched, e₅) =
        and_then-inv
          (given (new_watcher world.has_event 0 (pos default_watch_interval)) watcher_failed)
          (λ w. done (receipts_of store p w)) rc e₄ in
      let (a, b, c) = new_processor-inv store seed p (given-inv _ processor_failed p made) in
      let from_zero = new_watcher-inv world.has_event w (given-inv _ watcher_failed w watched) in
      subst (IsBuilt env world json) (done-injective e₅) (record {
        shared = sym a;
        loads = loaded-inv _ store l ∙ ap ok (sym a);
        seed = given-inv _ seed_failed seed h ∙ ap some (sym b);
        first_count = c;
        from_genesis = from_zero;
      })

  wired-IsBuilt :
      (db : Registry) (deps : Option ChainDeps) (s : Server) (rc : Receipts)
      → wired env world db json deps ≡ done s
      → s.receipts ≡ some rc
      → IsBuilt env world json rc
  wired-IsBuilt db none s rc e r =
      absurd (ground (arith, ap (λ (x : Server). x.receipts) (done-injective e) ∙ r))
  wired-IsBuilt db (some deps) s rc e r =
      let (built, h, last) =
        and_then-inv (start_receipt_watcher env world json)
          (λ x. done (record { registry = db; submitter = some deps.submitter; receipts = some x }))
          s e in
      let same : built ≡ rc =
        eq_of_some (ap (λ (x : Server). x.receipts) (done-injective last) ∙ r) in
      subst (IsBuilt env world json) same (start_receipt_watcher-IsBuilt built h)

  registered-IsBuilt :
      (x : Registry × Option DemoKeyError) (s : Server) (rc : Receipts)
      → with_registry env world json x ≡ done s
      → s.receipts ≡ some rc
      → IsBuilt env world json rc
  registered-IsBuilt (db, some er) s rc e r = absurd (ground (arith, e))
  registered-IsBuilt (db, none) s rc e r =
      let (deps, _, last) =
        and_then-inv (maybe_init_chain env world) (wired env world db json) s e in
      wired-IsBuilt db deps s rc last r

  -- A start that ends with a store for the receipts has loaded it from the file of the configured
  -- path, gives the endpoints the very store of the processor, and lets the watcher read from block
  -- 0 on, with a sequence count of 0 and the configured seed.
  pub start-IsBuilt :
      (ed : Ed25519) (s : Server) (rc : Receipts)
      → start env world ed json ≡ done s
      → s.receipts ≡ some rc
      → IsBuilt env world json rc
  unfolding start
  start-IsBuilt ed s rc e r =
      registered-IsBuilt (load_flat_sat_demo_key ed demo_seller_seed_hex (initialize [])) s rc e r
