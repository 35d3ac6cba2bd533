-- ===== src/Generator/Vectors.antt =====
-- gateway/test/utils/generate_packets.go: the checks of a vector, and the loop that writes them.
use void_protocol_oss.Base.{
  ℕ, ◌%◌, Bool, true, false, not, Option, none, some, List, [], ◌∷◌, length, ltb, ◌==◌,
  if◌then◌else◌,
}
use void_protocol_oss.Base.Bytes.{Bytes, codes}
use void_protocol_oss.Wire.Crc.{Crc32}
use void_protocol_oss.Wire.Signature.{Ed25519}
use void_protocol_oss.Generator.{
  lora_max_len, gen_packet_a, gen_packet_b, gen_packet_c, gen_packet_d, gen_packet_h,
  gen_packet_ack, gen_packet_l,
}

pub record PacketSpec : Type 0 where
  pub file : Bytes
  pub fn : Bool → Option Bytes
  pub ccsds : ℕ
  pub snlp : ℕ

pub data GenError : Type 0 where
  fatal mkdir_failed write_failed : GenError
  wrong_size not_aligned_32 not_aligned_64 too_long : GenError

abbrev pub verify_size : ℕ → ℕ → Option GenError
verify_size n want =
    if not (n == want)
    then some wrong_size
    else if not (n % 4 == 0)
    then some not_aligned_32
    else if not (n % 8 == 0)
    then some not_aligned_64
    else if ltb lora_max_len n
    then some too_long
    else none

abbrev pub verify_vector : Bytes → ℕ → Option GenError
verify_vector data_bytes want = verify_size (length data_bytes) want

-- What the operating system does: a directory for a tier, and a file of a packet and a tier.
pub record Disk : Type 0 where
  pub makes_directory : Bool → Bool
  pub writes_file : Bytes → Bool → Bool

-- A file that was written: its name, its tier and its bytes.
abbrev pub Vector : Type 0
Vector = Bytes × Bool × Bytes

module _ (disk : Disk) where
  abbrev pub and_write :
      PacketSpec
      → Bool
      → Bytes
      → Option GenError
      → List Vector × Option GenError
      → List Vector × Option GenError
  and_write p t data_bytes (some e) rest = ([], some e)
  and_write p t data_bytes none rest =
      if disk.writes_file p.file t
      then ((p.file, t, data_bytes) ∷ rest.0, rest.1)
      else ([], some write_failed)

  abbrev pub and_verify :
      PacketSpec
      → Bool
      → Option Bytes
      → List Vector × Option GenError
      → List Vector × Option GenError
  and_verify p t none rest = ([], some fatal)
  and_verify p t (some data_bytes) rest =
      and_write p t data_bytes (verify_vector data_bytes (if t then p.snlp else p.ccsds)) rest

  -- The inner loop runs over the two tiers, first CCSDS.
  unfoldable pub write_packets : List PacketSpec → List Vector × Option GenError
  write_packets [] = ([], none)
  write_packets (p ∷ ps) =
      and_verify p false (p.fn false) (and_verify p true (p.fn true) (write_packets ps))

module _ (ed : Ed25519) (crc : Crc32) (seed : Bytes) where
  abbrev pub golden_packets : List PacketSpec
  golden_packets =
      record {
        file = codes "packet_a.bin";
        fn = λ t. some (gen_packet_a ed crc seed t);
        ccsds = 72;
        snlp = 80;
      }
      ∷ record {
        file = codes "packet_b.bin";
        fn = gen_packet_b ed crc seed;
        ccsds = 184;
        snlp = 192;
      }
      ∷ record {
        file = codes "packet_c.bin";
        fn = λ t. some (gen_packet_c ed crc seed t);
        ccsds = 104;
        snlp = 112;
      }
      ∷ record {
        file = codes "packet_d.bin";
        fn = λ t. some (gen_packet_d ed crc seed t);
        ccsds = 128;
        snlp = 136;
      }
      ∷ record {
        file = codes "packet_h.bin";
        fn = λ t. some (gen_packet_h ed crc seed t);
        ccsds = 112;
        snlp = 120;
      }
      ∷ record {
        file = codes "packet_ack.bin";
        fn = λ t. some (gen_packet_ack ed crc seed t);
        ccsds = 120;
        snlp = 136;
      }
      ∷ record {
        file = codes "packet_l.bin";
        fn = λ t. some (gen_packet_l ed crc seed t);
        ccsds = 40;
        snlp = 48;
      }
      ∷ []

  unfoldable pub write_golden_vectors : Disk → List Vector × Option GenError
  write_golden_vectors disk =
      if not (disk.makes_directory false)
      then ([], some mkdir_failed)
      else if not (disk.makes_directory true)
      then ([], some mkdir_failed)
      else write_packets disk golden_packets
