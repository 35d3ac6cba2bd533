-- ===== src/Protocol/Fields.antt =====
-- The readers of the runtime and of the shared fields take a fixed number of bytes.
use void_protocol_oss.Base.{
  ℕ, ◌+◌, Bool, true, false, Option, none, some, slice, if◌then◌else◌, arith,
}
use void_protocol_oss.Base.Bytes.{Bytes}
use void_protocol_oss.Base.Ints.{signed}
use void_protocol_oss.Base.Words.{le_value, be_value}
use void_protocol_oss.Protocol.Kaitai.{Kaitai, Cursor, Parser, word, ◌>>◌}
use void_protocol_oss.Protocol.Reads.{Reads, bind-Reads, map-Reads}
use void_protocol_oss.Protocol.Common.{
  Ed25519Signature, X25519PublicKey, RelayOps, Vector3d, Vector3f, read_ed25519_signature,
  read_x25519_public_key, read_relay_ops, read_vector3d, read_vector3f,
}
use void_protocol_oss.Protocol.Header.{CcsdsPrimaryHeader, valid, read_ccsds_primary_header}

-- Little-endian fields at an offset.
abbrev pub le_at : ℕ → ℕ → Bytes → ℕ
le_at w o bs = le_value (slice o w bs)

abbrev pub be_at : ℕ → ℕ → Bytes → ℕ
be_at w o bs = be_value (slice o w bs)

abbrev pub vector3d_at : ℕ → Bytes → Vector3d
vector3d_at o bs = record { x = le_at 8 o bs; y = le_at 8 (o + 8) bs; z = le_at 8 (o + 8 + 8) bs }

abbrev pub vector3f_at : ℕ → Bytes → Vector3f
vector3f_at o bs = record { x = le_at 4 o bs; y = le_at 4 (o + 4) bs; z = le_at 4 (o + 4 + 4) bs }

abbrev pub relay_ops_at : ℕ → Bytes → RelayOps
relay_ops_at o bs = record {
  azimuth = le_at 2 o bs;
  elevation = le_at 2 (o + 2) bs;
  frequency = le_at 4 (o + 2 + 2) bs;
  duration_ms = le_at 4 (o + 2 + 2 + 4) bs;
}

abbrev pub signature_at : ℕ → Bytes → Ed25519Signature
signature_at o bs = record { raw = slice o 64 bs }

abbrev pub public_key_at : ℕ → Bytes → X25519PublicKey
public_key_at o bs = record { raw = slice o 32 bs }

abbrev pub ccsds_at : ℕ → Bytes → CcsdsPrimaryHeader
ccsds_at o bs = record {
  version_type_flag_apid = be_at 2 o bs;
  seq_flags_count = be_at 2 (o + 2) bs;
  packet_data_length = be_at 2 (o + 2 + 2) bs;
}

-- A validation takes nothing.
pub valid-Reads :
    {S A : Type 0} {view : S → Cursor} {p : Parser S A} {w : ℕ} {f : Bytes → ℕ → Option A}
    → (b : Bool) → Reads view p w f
    → Reads view (valid b >> p) w (λ bs o. if b then f bs o else none)
valid-Reads true h = h
valid-Reads false h = record { reads = λ s. ground arith }

module _ (k : Kaitai) where
  pub bytes-Reads : (n : ℕ) → Reads k.view (k.read_bytes n) n (word n (λ b. b))
  bytes-Reads n = record { reads = k.bytes_lem n }

  pub u1-Reads : Reads k.view k.read_u1 1 (word 1 le_value)
  u1-Reads = record { reads = k.u1_lem }

  pub u2be-Reads : Reads k.view k.read_u2be 2 (word 2 be_value)
  u2be-Reads = record { reads = k.u2be_lem }

  pub u4be-Reads : Reads k.view k.read_u4be 4 (word 4 be_value)
  u4be-Reads = record { reads = k.u4be_lem }

  pub u2le-Reads : Reads k.view k.read_u2le 2 (word 2 le_value)
  u2le-Reads = record { reads = k.u2le_lem }

  pub u4le-Reads : Reads k.view k.read_u4le 4 (word 4 le_value)
  u4le-Reads = record { reads = k.u4le_lem }

  pub u8le-Reads : Reads k.view k.read_u8le 8 (word 8 le_value)
  u8le-Reads = record { reads = k.u8le_lem }

  pub s2le-Reads : Reads k.view k.read_s2le 2 (word 2 (λ b. signed 0x8000 (le_value b)))
  s2le-Reads = record { reads = k.s2le_lem }

  pub s4le-Reads : Reads k.view k.read_s4le 4 (word 4 (λ b. signed 0x80000000 (le_value b)))
  s4le-Reads = record { reads = k.s4le_lem }

  f4le-Reads : Reads k.view k.read_f4le 4 (word 4 le_value)
  f4le-Reads = record { reads = k.f4le_lem }

  f8le-Reads : Reads k.view k.read_f8le 8 (word 8 le_value)
  f8le-Reads = record { reads = k.f8le_lem }

  pub signature-Reads :
      Reads k.view (read_ed25519_signature k) 64 (λ bs o. some (signature_at o bs))
  unfolding read_ed25519_signature
  signature-Reads = map-Reads (λ (raw : Bytes). record { raw = raw }) (bytes-Reads 64)

  pub public_key-Reads :
      Reads k.view (read_x25519_public_key k) 32 (λ bs o. some (public_key_at o bs))
  unfolding read_x25519_public_key
  public_key-Reads = map-Reads (λ (raw : Bytes). record { raw = raw }) (bytes-Reads 32)

  pub vector3d-Reads : Reads k.view (read_vector3d k) 24 (λ bs o. some (vector3d_at o bs))
  unfolding read_vector3d
  vector3d-Reads = bind-Reads f8le-Reads λ x. bind-Reads f8le-Reads λ y. map-Reads _ f8le-Reads

  pub vector3f-Reads : Reads k.view (read_vector3f k) 12 (λ bs o. some (vector3f_at o bs))
  unfolding read_vector3f
  vector3f-Reads = bind-Reads f4le-Reads λ x. bind-Reads f4le-Reads λ y. map-Reads _ f4le-Reads

  pub relay_ops-Reads : Reads k.view (read_relay_ops k) 12 (λ bs o. some (relay_ops_at o bs))
  unfolding read_relay_ops
  relay_ops-Reads =
      bind-Reads u2le-Reads
        λ a. bind-Reads u2le-Reads λ e. bind-Reads u4le-Reads λ f. map-Reads _ u4le-Reads

  pub ccsds-Reads : Reads k.view (read_ccsds_primary_header k) 6 (λ bs o. some (ccsds_at o bs))
  unfolding read_ccsds_primary_header
  ccsds-Reads = bind-Reads u2be-Reads λ v. bind-Reads u2be-Reads λ s. map-Reads _ u2be-Reads
