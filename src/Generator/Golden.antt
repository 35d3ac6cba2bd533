-- ===== src/Generator/Golden.antt =====
-- The golden frames: their sizes, and that all of them are written.
use void_protocol_oss.Base.{
  ℕ, ◌+◌, ◌*◌, ◌%◌, ◌≤◌, ◌≡◌, refl, ap, ◌∙◌, Bool, true, false, Option, none, some, List, [], ◌∷◌,
  ◌++◌, length, length-append, replicate, All, if◌then◌else◌, arith,
}
use void_protocol_oss.Base.Bytes.{Bytes}
use void_protocol_oss.Base.Words.{le_bytes}
use void_protocol_oss.Wire.Crc.{Crc32}
use void_protocol_oss.Wire.Signature.{Ed25519}
use void_protocol_oss.Generator.{
  handshake_message, receipt_message, build_header, with_crc, packet_b_before_sig, signed_packet_b,
  gen_packet_b, gen_packet_h, gen_packet_c,
}
use void_protocol_oss.Generator.Vectors.{
  PacketSpec, GenError, write_failed, verify_size, Disk, Vector, and_verify, and_write,
  write_packets, golden_packets, write_golden_vectors,
}

abbrev want : PacketSpec → Bool → ℕ
want p t = if t then p.snlp else p.ccsds

-- A frame of the size that is wanted for its packet and tier, which the checks pass.
record IsFit (p : PacketSpec) (t : Bool) : Type 0 where
  frame : Bytes
  made : p.fn t ≡ some frame
  sized : length frame ≡ want p t
  passes : verify_size (want p t) (want p t) ≡ none
  aligned : want p t % 8 ≡ 0
  short : want p t ≤ 255

-- A file of a frame that both tiers can carry: whole words of 64 bits, within a LoRa packet.
abbrev pub IsCarried : Vector → Type 0
IsCarried v = (length v.2 % 8 ≡ 0) × (length v.2 ≤ 255)

IsFit-IsCarried : (p : PacketSpec) (t : Bool) (f : IsFit p t) → IsCarried (p.file, t, f.frame)
IsFit-IsCarried p t f =
    let size = f.sized in
    let short = f.short in (ap (λ n. n % 8) size ∙ f.aligned, omega (arith, size, short))

-- The operating system makes both directories and takes every file.
pub record TakesAll (disk : Disk) : Type 0 where
  pub directories : (t : Bool) → disk.makes_directory t ≡ true
  pub files : (name : Bytes) (t : Bool) → disk.writes_file name t ≡ true

module _ (disk : Disk) (takes : TakesAll disk) where
  write_one :
      (p : PacketSpec) (t : Bool) (rest : List Vector × Option GenError) (f : IsFit p t)
      → and_verify disk p t (p.fn t) rest ≡ ((p.file, t, f.frame) ∷ rest.0, rest.1)
  write_one p t rest f =
      ap (λ x. and_verify disk p t x rest) f.made
      ∙ ap (λ n. and_write disk p t f.frame (verify_size n (want p t)) rest) f.sized
      ∙ ap (λ e. and_write disk p t f.frame e rest) f.passes
      ∙ ap (λ b. if b then ((p.file, t, f.frame) ∷ rest.0, rest.1) else ([], some write_failed))
          (takes.files p.file t)

  write_each :
      (ps : List PacketSpec)
      → All (λ p. IsFit p false × IsFit p true) ps
      → (vs : List Vector) × (write_packets disk ps ≡ (vs, none))
        × (length vs ≡ 2 * length ps)
        × All IsCarried vs
  unfolding write_packets
  write_each [] f = ([], refl, refl, tt)
  write_each (p ∷ ps) ((a, b), f) =
      let (vs, e, l, c) = write_each ps f in
      (
        (p.file, false, a.frame) ∷ (p.file, true, b.frame) ∷ vs,
        write_one p false (and_verify disk p true (p.fn true) (write_packets disk ps)) a
            ∙ ap (λ r. ((p.file, false, a.frame) ∷ r.0, r.1))
                (write_one p true (write_packets disk ps) b
                  ∙ ap (λ r. ((p.file, true, b.frame) ∷ r.0, r.1)) e),
        omega (arith, l),
        (IsFit-IsCarried p false a, (IsFit-IsCarried p true b, c)),
      )

module _ (ed : Ed25519) (crc : Crc32) (seed : Bytes) where
  length-with_crc :
      (header body tail : Bytes)
      → length (with_crc ed crc seed header body tail)
        ≡ length header + (length body + (4 + length tail))
  length-with_crc header body tail =
      let check = le_bytes 4 (crc.checksum_ieee (header ++ body)) ++ tail in
      let four : length check ≡ 4 + length tail = omega arith in
      length-append header (body ++ check)
      ∙ ap (λ n. length header + n) (length-append body check)
      ∙ ap (λ n. length header + (length body + n)) four

  -- A part of known size and a signature behind it.
  length-signed : (part message : Bytes) → length (part ++ ed.sign seed message) ≡ length part + 64
  length-signed part message =
      length-append part (ed.sign seed message)
      ∙ ap (λ n. length part + n) (ed.sign_length seed message)

  pub before_size : (t : Bool) → length (packet_b_before_sig ed crc seed t) ≡ 106
  before_size false = refl
  before_size true = refl

  pub length-signed_packet_b :
      (t : Bool)
      → length (signed_packet_b ed crc seed t) ≡ length (build_header t 178 101 false) + 178
  length-signed_packet_b t =
      let header = build_header t 178 101 false in
      let before = packet_b_before_sig ed crc seed t in
      let body = before ++ ed.sign seed (header ++ before) in
      omega (
        arith,
        length-with_crc header body (replicate 4 0),
        length-signed before (header ++ before),
        before_size t,
      )

  length-gen_packet_c :
      (t : Bool) → length (gen_packet_c ed crc seed t) ≡ length (build_header t 98 100 false) + 98
  length-gen_packet_c t =
      let body = receipt_message ++ ed.sign seed receipt_message in
      omega (
        arith,
        length-with_crc (build_header t 98 100 false) body (replicate 4 0),
        length-signed receipt_message receipt_message,
      )

  length-gen_packet_h :
      (t : Bool) → length (gen_packet_h ed crc seed t) ≡ length (build_header t 106 101 false) + 106
  length-gen_packet_h t =
      let body = handshake_message ++ ed.sign seed handshake_message in
      omega (
        arith,
        length-append (build_header t 106 101 false) body,
        length-signed handshake_message handshake_message,
      )

  fit :
      (p : PacketSpec) (t : Bool) (bs : Bytes)
      → p.fn t ≡ some bs
      → length bs ≡ want p t
      → verify_size (want p t) (want p t) ≡ none
      → want p t % 8 ≡ 0
      → want p t ≤ 255
      → IsFit p t
  fit p t bs m s v a l = record {
    frame = bs;
    made = m;
    sized = s;
    passes = v;
    aligned = a;
    short = l;
  }

  pub gen_packet_b-made :
      (t : Bool) → gen_packet_b ed crc seed t ≡ some (signed_packet_b ed crc seed t)
  unfolding gen_packet_b
  gen_packet_b-made false = refl
  gen_packet_b-made true = refl

  all-IsFit : All (λ p. IsFit p false × IsFit p true) (golden_packets ed crc seed)
  all-IsFit = (
    (
      fit _ false _ refl refl refl refl (omega arith),
      fit _ true _ refl refl refl refl (omega arith),
    ),
    (
      (
        fit _ false _ (gen_packet_b-made false) (length-signed_packet_b false) refl refl
            (omega arith),
        fit _ true _ (gen_packet_b-made true) (length-signed_packet_b true) refl refl (omega arith),
      ),
      (
        (
          fit _ false _ refl (length-gen_packet_c false) refl refl (omega arith),
          fit _ true _ refl (length-gen_packet_c true) refl refl (omega arith),
        ),
        (
          (
            fit _ false _ refl refl refl refl (omega arith),
            fit _ true _ refl refl refl refl (omega arith),
          ),
          (
            (
              fit _ false _ refl (length-gen_packet_h false) refl refl (omega arith),
              fit _ true _ refl (length-gen_packet_h true) refl refl (omega arith),
            ),
            (
              (
                fit _ false _ refl refl refl refl (omega arith),
                fit _ true _ refl refl refl refl (omega arith),
              ),
              (
                (
                  fit _ false _ refl refl refl refl (omega arith),
                  fit _ true _ refl refl refl refl (omega arith),
                ),
                tt,
              ),
            ),
          ),
        ),
      ),
    ),
  )

  -- Where the operating system makes both directories and takes every file, the generator ends
  -- without an error and has written 14 frames, each of whole words of 64 bits and at most 255
  -- bytes.
  pub golden_vectors_written :
      (disk : Disk)
      → TakesAll disk
      → (vs : List Vector) × (write_golden_vectors ed crc seed disk ≡ (vs, none))
        × (length vs ≡ 14)
        × All IsCarried vs
  unfolding write_golden_vectors
  golden_vectors_written disk takes =
      let (vs, e, l, c) = write_each disk takes (golden_packets ed crc seed) all-IsFit in
      let first = takes.directories false in
      let second = takes.directories true in (vs, rw (first, second) e, l, c)
