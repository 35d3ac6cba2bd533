-- ===== src/Registry.antt =====
-- gateway/internal/core/registry/registry.go: the satellites and their keys.
pub mod Verifier
pub mod DemoKey
use void_protocol_oss.Base.{
  ℕ, Bool, true, false, Option, none, some, List, [], ◌∷◌, ◌++◌, length, ◌==◌, if◌then◌else◌,
}
use void_protocol_oss.Base.Bytes.{Bytes, codes}
use void_protocol_oss.Base.Dict.{nat_Eq, lookup, insert}
use void_protocol_oss.Base.Text.{hex, hex_decode}
use void_protocol_oss.Wire.Signature.{Ed25519, seed_size}

pub record SatRecord : Type 0 where
  pub sat_id : ℕ
  pub pub_key_hex : Bytes
  pub wallet : Bytes
  pub role : Bytes

abbrev pub Registry : Type 0
Registry = List (ℕ × SatRecord)

abbrev pub flat_sat_demo_sat_id : ℕ
flat_sat_demo_sat_id = 0xCAFEBABE

abbrev pub flat_sat_demo_wallet : Bytes
flat_sat_demo_wallet = codes "0x70997970C51812dc3A010C7d01b50e0d17dc79C8"

abbrev pub sat_a : SatRecord
sat_a = record {
  sat_id = 100;
  pub_key_hex = codes "4822f97bc9e8746acc9b2401e21db1afba0212657ad4ae8ee9fd16964dd27d97";
  wallet = codes "0x1A2B3C4D5E6F7A8B9C0D1E2F3A4B5C6D7E8F9A0B";
  role = codes "Seller";
}

abbrev pub sat_b : SatRecord
sat_b = record {
  sat_id = 101;
  pub_key_hex = codes "4102f95e145ccbaea5959f51cdf2e52e31b2de6bc19ae9ba1347f57e31549dd3";
  wallet = codes "0x9F8E7D6C5B4A39281706F5E4D3C2B1A09F8E7D6C";
  role = codes "Mule";
}

abbrev pub demo_seller : SatRecord
demo_seller = record {
  sat_id = flat_sat_demo_sat_id;
  pub_key_hex = [];
  wallet = flat_sat_demo_wallet;
  role = codes "Seller";
}

unfoldable pub initialize : Registry → Registry
unfolding insert
initialize db = insert flat_sat_demo_sat_id demo_seller (insert 101 sat_b (insert 100 sat_a db))

unfoldable pub get_sat : ℕ → Registry → Option SatRecord
get_sat id db = lookup id db

pub data DemoKeyError : Type 0 where
  bad_hex bad_seed_size not_seeded : DemoKeyError

module _ (ed : Ed25519) where
  abbrev pub with_key : Bytes → Option SatRecord → Registry → Registry × Option DemoKeyError
  with_key seed none db = (db, some not_seeded)
  with_key seed (some rec) db =
      (insert flat_sat_demo_sat_id (record rec { pub_key_hex = hex (ed.public_key seed) }) db, none)

  abbrev pub with_seed : Option Bytes → Registry → Registry × Option DemoKeyError
  with_seed none db = (db, some bad_hex)
  with_seed (some seed) db =
      if length seed == seed_size
      then with_key seed (lookup flat_sat_demo_sat_id db) db
      else (db, some bad_seed_size)

  unfoldable pub load_flat_sat_demo_key : Bytes → Registry → Registry × Option DemoKeyError
  load_flat_sat_demo_key seed_hex db = with_seed (hex_decode seed_hex) db
