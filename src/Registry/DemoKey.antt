-- ===== src/Registry/DemoKey.antt =====
-- The demo key: loaded at the start, and used to check the payments.
use void_protocol_oss.Base.{
  ℕ, ◌≡◌, ◌↔◌, ap, ◌∙◌, inl, inr, true, none, some, length, ◌==◌, Option-cases, if◌then◌else◌,
  arith, All,
}
use void_protocol_oss.Base.Bytes.{Bytes, IsByte}
use void_protocol_oss.Base.Dict.{nat_Eq, lookup, insert, lookup-insert, lookup-insert_self}
use void_protocol_oss.Base.Text.{hex, hex_decode, hex_decode-hex}
use void_protocol_oss.Wire.Signature.{Ed25519}
use void_protocol_oss.Registry.{
  Registry, SatRecord, flat_sat_demo_sat_id, demo_seller, initialize, get_sat, with_seed,
  load_flat_sat_demo_key, sat_a, sat_b,
}
use void_protocol_oss.Registry.Verifier.{verify_packet_signature}

pub record IsAuthentic (ed : Ed25519) (db : Registry) (sat_id : ℕ) (message signature : Bytes)
    : Type 0 where
  pub rec : SatRecord
  pub key : Bytes
  pub registered : lookup sat_id db ≡ some rec
  pub decoded : hex_decode rec.pub_key_hex ≡ some key
  pub sized : length key ≡ 32
  pub signed_by : ed.verify key message signature ≡ true

-- The check passes exactly for a registered satellite whose key is the hex text of 32 bytes, under
-- which the signature is good.
pub verify_packet_signature_iff :
    (ed : Ed25519) (message signature : Bytes) (sat_id : ℕ) (db : Registry)
    → (verify_packet_signature ed message signature sat_id db ≡ none)
      ↔ IsAuthentic ed db sat_id message signature
unfolding verify_packet_signature get_sat
verify_packet_signature_iff ed message signature sat_id db = (
  λ e. elim (Option-cases (lookup sat_id db)) [
    | inl l ↦ absurd (ground (arith, e, l))
    | inr (rec, l) ↦ elim (Option-cases (hex_decode rec.pub_key_hex)) [
      | inl d ↦ absurd (ground (arith, e, l, d))
      | inr (key, d) ↦ record {
        rec = rec;
        key = key;
        registered = l;
        decoded = d;
        sized = ground (arith, e, l, d);
        signed_by = ground (arith, e, l, d);
      }
    ]
  ],
  λ v.
      let l = v.registered in
      let d = v.decoded in let z = v.sized in let g = v.signed_by in ground (arith, l, d, z, g),
)

-- Loading the demo seed, as hex text of 32 bytes, into the initial registry succeeds; then what is
-- signed with the seed passes the check for the demo satellite, and the other satellites have
-- the records that they had.
pub demo_key_verifies :
    (ed : Ed25519) (seed message : Bytes) (db : Registry)
    → All IsByte seed
    → length seed ≡ 32
    → (db' : Registry) × (load_flat_sat_demo_key ed (hex seed) (initialize db) ≡ (db', none))
      × (verify_packet_signature ed message (ed.sign seed message) flat_sat_demo_sat_id db' ≡ none)
      × ((id : ℕ)
          → lookup id db' ≡ (
              if flat_sat_demo_sat_id == id
              then some (record demo_seller { pub_key_hex = hex (ed.public_key seed) })
              else lookup id (initialize db)))
unfolding load_flat_sat_demo_key initialize
demo_key_verifies ed seed message db hb hl =
    let rec = record demo_seller { pub_key_hex = hex (ed.public_key seed) } in
    let found =
      lookup-insert_self flat_sat_demo_sat_id demo_seller
        (insert 101 sat_b (insert 100 sat_a db)) in
    let db' = insert flat_sat_demo_sat_id rec (initialize db) in
    (
      db',
      ap (λ x. with_seed ed x (initialize db)) (hex_decode-hex seed hb) ∙ ground (arith, hl, found),
      (verify_packet_signature_iff ed message (ed.sign seed message) flat_sat_demo_sat_id db').1
          (record {
            rec = rec;
            key = ed.public_key seed;
            registered = lookup-insert_self flat_sat_demo_sat_id rec (initialize db);
            decoded = hex_decode-hex (ed.public_key seed) (ed.public_bytes seed);
            sized = ed.public_length seed;
            signed_by = ed.verify_sign seed message hl;
          }),
      λ id. lookup-insert flat_sat_demo_sat_id id rec (initialize db),
    )
