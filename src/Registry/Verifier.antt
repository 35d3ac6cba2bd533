-- ===== src/Registry/Verifier.antt =====
-- gateway/internal/core/security/verifier.go: a signature against the registered key.
use void_protocol_oss.Base.{ℕ, Option, none, some, length, ◌==◌, if◌then◌else◌}
use void_protocol_oss.Base.Bytes.{Bytes}
use void_protocol_oss.Base.Dict.{nat_Eq}
use void_protocol_oss.Base.Text.{hex_decode}
use void_protocol_oss.Wire.Signature.{Ed25519, public_key_size}
use void_protocol_oss.Registry.{Registry, SatRecord, get_sat}

pub data VerifyError : Type 0 where
  unknown_satellite bad_key_hex bad_key_length invalid_signature : VerifyError

module _ (ed : Ed25519) (message signature : Bytes) where
  abbrev pub verify_with : Option Bytes → Option VerifyError
  verify_with none = some bad_key_hex
  verify_with (some key) =
      if length key == public_key_size
      then (if ed.verify key message signature then none else some invalid_signature)
      else some bad_key_length

  abbrev pub verify_for : Option SatRecord → Option VerifyError
  verify_for none = some unknown_satellite
  verify_for (some rec) = verify_with (hex_decode rec.pub_key_hex)

  unfoldable pub verify_packet_signature : ℕ → Registry → Option VerifyError
  verify_packet_signature sat_id db = verify_for (get_sat sat_id db)
