-- ===== src/Wire/Samples.antt =====
-- Concrete stand-ins that meet the laws of the signature and the checksum.
use void_protocol_oss.Base.{◌*◌, ◌%◌, ◌^◌, refl, ◌∷◌, length, replicate, arith}
use void_protocol_oss.Base.Bytes.{Bytes, bytes_eq, bytes_eq_refl}
use void_protocol_oss.Wire.Crc.{Crc32}
use void_protocol_oss.Wire.Signature.{Ed25519}

-- A signature of the message's length, whose check compares that and the padding.
abbrev pub sample_signature : Bytes → Bytes → Bytes
sample_signature seed m = (length m % 256) ∷ replicate 63 7

abbrev pub sample_ed : Ed25519
sample_ed = record {
  sign = sample_signature;
  public_key = λ seed. replicate 32 5;
  verify = λ key m sig. bytes_eq sig (sample_signature key m);
  sign_length = λ seed m. refl;
  sign_bytes = λ seed m. omega arith;
  public_length = λ seed. refl;
  public_bytes = λ seed. omega arith;
  verify_sign = λ seed m l. bytes_eq_refl (sample_signature seed m);
}

abbrev pub sample_crc : Crc32
sample_crc = record { checksum_ieee = λ m. length m * 16777213 % 2 ^ 32; u32 = λ m. omega arith }
