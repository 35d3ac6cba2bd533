-- ===== src/Server/Started.antt =====
-- A started gateway at its endpoints.
use void_protocol_oss.Base.{
  ◌-◌, ◌≡◌, refl, sym, ap, ◌∙◌, inl, inr, true, false, Option, none, some, [], ◌∷◌, length, take,
  is_some, Option-cases, if◌then◌else◌, arith,
}
use mathlib.Core.Path.{subst}
use void_protocol_oss.Base.Bytes.{Bytes, bytes_eq}
use void_protocol_oss.Base.Dict.{nat_Eq, lookup}
use void_protocol_oss.Base.Text.{hex}
use void_protocol_oss.Wire.Crc.{Crc32}
use void_protocol_oss.Wire.Signature.{Ed25519}
use void_protocol_oss.Protocol.Kaitai.{Kaitai}
use void_protocol_oss.Protocol.Header.{version}
use void_protocol_oss.Protocol.Payments.{PacketBBody}
use void_protocol_oss.Protocol.Packet.{VoidProtocol, payment, ccsds_of}
use void_protocol_oss.Protocol.Packet.Layout.{frame_fields}
use void_protocol_oss.Registry.{
  Registry, SatRecord, demo_seller, flat_sat_demo_sat_id, initialize, load_flat_sat_demo_key,
}
use void_protocol_oss.Registry.Verifier.{verify_packet_signature}
use void_protocol_oss.Registry.DemoKey.{verify_packet_signature_iff, demo_key_verifies}
use void_protocol_oss.Ingest.{intent_for, ingest_packet}
use void_protocol_oss.Ingest.Settlement.{ingest_packet_settles_iff}
use void_protocol_oss.Receipt.Json.{Json}
use void_protocol_oss.Server.{
  Env, World, ChainDeps, Server, Outcome, done, fatal, demo_seller_seed_hex, wired, and_then,
  init_chain, or_default, default_eth_rpc_url, anvil_acct0_priv, with_registry, maybe_init_chain,
  start_receipt_watcher, start,
}

abbrev pub demo_seed : Bytes
demo_seed =
    188 ∷ 29 ∷ 244 ∷ 250 ∷ 110 ∷ 61 ∷ 112 ∷ 72 ∷ 153 ∷ 47 ∷ 20 ∷ 230 ∷ 85 ∷ 6 ∷ 12 ∷ 187 ∷ 33 ∷ 144
    ∷ 189 ∷ 237 ∷ 144 ∷ 2 ∷ 82 ∷ 76 ∷ 6 ∷ 231 ∷ 203 ∷ 177 ∷ 99 ∷ 223 ∷ 21 ∷ 251 ∷ []

pub hex-demo_seed : hex demo_seed ≡ demo_seller_seed_hex
hex-demo_seed = refl

-- The seller of the demo, with the public key of the demo's seed.
abbrev pub demo_record : Ed25519 → SatRecord
demo_record ed = record demo_seller { pub_key_hex = hex (ed.public_key demo_seed) }

pub done-injective : {A : Type 0} {a b : A} → done a ≡ done b → a ≡ b
done-injective e = cc

pub and_then-inv :
    {A B : Type 0} (x : Outcome A) (f : A → Outcome B) (b : B)
    → and_then x f ≡ done b
    → (a : A) × (x ≡ done a) × (f a ≡ done b)
and_then-inv (done a) f b e = (a, refl, e)
and_then-inv (fatal er) f b e = absurd (ground (arith, e))

module _ (env : Env) (world : World) (ed : Ed25519) (json : Json) where
  -- A registry that the demo's key has been loaded into.
  record IsKeyed (db : Registry) : Type 0 where
    loaded : load_flat_sat_demo_key ed demo_seller_seed_hex (initialize []) ≡ (db, none)
    verifies :
        (message : Bytes)
        → verify_packet_signature ed message (ed.sign demo_seed message) flat_sat_demo_sat_id db
          ≡ none
    registered : lookup flat_sat_demo_sat_id db ≡ some (demo_record ed)

  keyed : (db : Registry) × IsKeyed db
  keyed =
      let (db, l, v, r) = demo_key_verifies ed demo_seed [] [] (omega arith) refl in
      (
        db,
        record {
          loaded = ap (λ x. load_flat_sat_demo_key ed x (initialize [])) (sym hex-demo_seed) ∙ l;
          verifies = λ message.
              let (db', l', v', _) = demo_key_verifies ed demo_seed message [] (omega arith) refl in
              subst
                (λ d.
                  verify_packet_signature ed message (ed.sign demo_seed message)
                    flat_sat_demo_sat_id d
                  ≡ none)
                (ap (λ x. x.0) (sym l' ∙ l)) v';
          registered = r flat_sat_demo_sat_id;
        },
      )

  wired_registry :
      (db : Registry) (deps : Option ChainDeps) (s : Server)
      → wired env world db json deps ≡ done s
      → (s.registry ≡ db) × (is_some s.submitter ≡ is_some deps)
  wired_registry db none s e =
      let same = done-injective e in
      (ap (λ x. x.registry) (sym same), ap (λ x. is_some x.submitter) (sym same))
  wired_registry db (some deps) s e =
      let (receipts, _, last) =
        and_then-inv (start_receipt_watcher env world json)
          (λ r. done (record { registry = db; submitter = some deps.submitter; receipts = some r }))
          s e in
      let same = done-injective last in
      (ap (λ x. x.registry) (sym same), ap (λ x. is_some x.submitter) (sym same))

  start_registry :
      (db : Registry) (s : Server) → IsKeyed db → start env world ed json ≡ done s → s.registry ≡ db
  unfolding start
  start_registry db s v e =
      let (deps, _, last) =
        and_then-inv (maybe_init_chain env world) (wired env world db json) s
          (ap (with_registry env world json) (sym v.loaded) ∙ e) in
      (wired_registry db deps s last).0

  abbrev escrow_set : Outcome (Option ChainDeps)
  escrow_set =
      and_then
        (init_chain env world (or_default env.eth_rpc_url default_eth_rpc_url)
          (or_default env.gateway_private_key anvil_acct0_priv))
        (λ deps. done (some deps))

  -- Without the address of the contract the gateway starts, with no store for the egress
  -- endpoints, and no request ever leads to a settlement.
  pub start_offline :
      (k : Kaitai) (crc : Crc32)
      → env.escrow_address ≡ []
      → (s : Server) × (start env world ed json ≡ done s)
        × (s.receipts ≡ none)
        × ((raw : Bytes)
            → (ingest_packet k ed crc world.hex_to_address s.registry
                (is_some s.submitter)
                (some raw)).1
              ≡ none)
  unfolding start maybe_init_chain
  start_offline k crc h =
      let (db, v) = keyed in
      (
        record { registry = db; submitter = none; receipts = none },
        ap (with_registry env world json) v.loaded
            ∙ ap
                (λ a.
                  and_then (if bytes_eq a [] then done none else escrow_set)
                    (wired env world db json))
                h,
        refl,
        λ raw.
            elim (Option-cases
              ((ingest_packet k ed crc world.hex_to_address db false (some raw)).1)) [
                | inl e ↦ e
                | inr (i, e) ↦
                    let (w, _) =
                      (ingest_packet_settles_iff k ed crc world.hex_to_address db false raw i).0
                        e in
                    absurd (ground (arith, w))
              ],
      )

  pub demo_payment_settles :
      (k : Kaitai) (crc : Crc32) (s : Server) (raw : Bytes) (p : VoidProtocol) (b : PacketBBody)
      → start env world ed json ≡ done s
      → is_some s.submitter ≡ true
      → frame_fields raw ≡ some p
      → version (ccsds_of p.routing_header) ≡ 0
      → payment b ≡ p.body
      → b.sat_id ≡ flat_sat_demo_sat_id
      → b.signature.raw ≡ ed.sign demo_seed (take (length raw - 72) raw)
      → (ingest_packet k ed crc world.hex_to_address s.registry (is_some s.submitter) (some raw)).1
        ≡ some (intent_for world.hex_to_address b (demo_record ed))
  demo_payment_settles k crc s raw p b e w f v body id sig =
      let (db, keys) = keyed in
      let same = start_registry db s keys e in
      let good : verify_packet_signature ed (take (length raw - 72) raw) b.signature.raw b.sat_id
            s.registry
          ≡ none =
        ap (λ x. verify_packet_signature ed (take (length raw - 72) raw) x b.sat_id s.registry) sig
        ∙ ap
            (λ x.
              verify_packet_signature ed (take (length raw - 72) raw)
                (ed.sign demo_seed (take (length raw - 72) raw)) x s.registry)
            id
        ∙ ap
            (verify_packet_signature ed (take (length raw - 72) raw)
              (ed.sign demo_seed (take (length raw - 72) raw)) flat_sat_demo_sat_id)
            same
        ∙ keys.verifies (take (length raw - 72) raw) in
      (ingest_packet_settles_iff k ed crc world.hex_to_address s.registry (is_some s.submitter) raw
          (intent_for world.hex_to_address b (demo_record ed))).1
        (
          w,
          record {
            frame = p;
            parsed = f;
            known_version = v;
            content = record {
              b = b;
              paid = body;
              authentic =
                  (verify_packet_signature_iff ed (take (length raw - 72) raw) b.signature.raw
                      b.sat_id s.registry).0
                    good;
              rec = demo_record ed;
              registered =
                  ap (λ x. lookup x s.registry) id
                  ∙ ap (lookup flat_sat_demo_sat_id) same
                  ∙ keys.registered;
              has_wallet = refl;
              intent = refl;
            };
          },
        )
