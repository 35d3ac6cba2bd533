-- ===== src/Wire/Signature.antt =====
-- Ed25519, which is the library's. A key pair is made from a seed of 32 bytes.
use void_protocol_oss.Base.{ℕ, ◌≡◌, Bool, true, length, All}
use void_protocol_oss.Base.Bytes.{Bytes, IsByte}

abbrev pub seed_size : ℕ
seed_size = 32

abbrev pub public_key_size : ℕ
public_key_size = 32

abbrev pub signature_size : ℕ
signature_size = 64

-- `sign seed m` is `ed25519.Sign` with the key that `NewKeyFromSeed` makes of the seed, and
-- `public_key seed` that key's public half.
pub record Ed25519 : Type 0 where
  pub sign : Bytes → Bytes → Bytes
  pub public_key : Bytes → Bytes
  pub verify : Bytes → Bytes → Bytes → Bool
  pub sign_length : (seed m : Bytes) → length (sign seed m) ≡ signature_size
  pub sign_bytes : (seed m : Bytes) → All IsByte (sign seed m)
  pub public_length : (seed : Bytes) → length (public_key seed) ≡ public_key_size
  pub public_bytes : (seed : Bytes) → All IsByte (public_key seed)
  pub verify_sign :
      (seed m : Bytes) → length seed ≡ seed_size → verify (public_key seed) m (sign seed m) ≡ true
