-- ===== src/Receipt/Builder/Layout.antt =====
-- The frame that `Build` makes, field by field.
use Prim.Native.Nat.{bit_and, bit_or}
use mathlib.Core.List.{append_assoc, append-nil}
use void_protocol_oss.Base.{
  ℕ, ◌+◌, ◌-◌, ◌%◌, ◌^◌, ◌≡◌, refl, sym, ap, ◌∙◌, none, some, [], ◌∷◌, ◌++◌, length, take, drop,
  replicate, length-append, take-append_left, drop-append_left, ◌==◌, if◌then◌else◌, arith,
}
use void_protocol_oss.Base.Bits.{bit_and_mask, bit_or_shift}
use void_protocol_oss.Base.Bytes.{Bytes}
use void_protocol_oss.Base.Words.{le_bytes}
use void_protocol_oss.Wire.Crc.{Crc32}
use void_protocol_oss.Receipt.Builder.{
  Inputs, put, two_bytes, unsigned_frame, signed_frame, write_snlp_header, build,
}
use void_protocol_oss.Wire.Signature.{Ed25519}

abbrev zeros : ℕ → Bytes
zeros n = replicate n 0

-- The 14 bytes of the header for a body of `body_len` bytes, big-endian: the sync word, the secondary
-- header flag with the APID, "unsegmented" with the sequence count, and the length less one.
abbrev pub snlp_header : ℕ → ℕ → ℕ → Bytes
snlp_header apid seq_count body_len =
    (0x1D ∷ 0x01 ∷ 0xA5 ∷ 0xA5 ∷ [])
    ++ two_bytes (0x0800 + apid % 2 ^ 11)
    ++ two_bytes (0xC000 + seq_count % 2 ^ 14)
    ++ two_bytes (body_len - 1)
    ++ zeros 4

-- The bytes of the body that are signed.
abbrev pub signed_body : Inputs → Bytes
signed_body i =
    zeros 2 ++ le_bytes 8 i.exec_time_ms ++ le_bytes 8 i.enc_tx_id ++ (i.enc_status ∷ []) ++ zeros 7

-- The frame before its checksum.
abbrev pub checked_part : Ed25519 → Inputs → Bytes
checked_part ed i =
    (snlp_header i.apid i.seq_count 98 ++ signed_body i) ++ ed.sign i.seed_ed25519 (signed_body i)

-- The layout of the frame: header, signed body, signature, little-endian checksum, four zeros.
abbrev pub packet_c : Ed25519 → Crc32 → Inputs → Bytes
packet_c ed crc i =
    checked_part ed i ++ (le_bytes 4 (crc.checksum_ieee (checked_part ed i)) ++ zeros 4)

id_field : (apid : ℕ) → bit_or 0x0800 (bit_and apid 0x07FF) ≡ 0x0800 + apid % 2 ^ 11
id_field apid =
    rw (bit_and_mask 11 apid 0x07FF refl) (bit_or_shift 11 1 (apid % 2 ^ 11) (omega arith))

seq_field : (n : ℕ) → bit_or 0xC000 (bit_and n 0x3FFF) ≡ 0xC000 + n % 2 ^ 14
seq_field n = rw (bit_and_mask 14 n 0x3FFF refl) (bit_or_shift 14 3 (n % 2 ^ 14) (omega arith))

unsigned_lem :
    (i : Inputs)
    → unsigned_frame i
      ≡ (snlp_header i.apid i.seq_count 98 ++ signed_body i) ++ (zeros 64 ++ zeros 8)
unfolding unsigned_frame write_snlp_header
unsigned_lem i = rw (id_field i.apid, seq_field i.seq_count) refl

put_middle :
    (off : ℕ) (a bs old rest : Bytes)
    → off ≡ length a
    → length bs ≡ length old
    → put off bs (a ++ (old ++ rest)) ≡ a ++ (bs ++ rest)
put_middle off a bs old rest ha hb =
    ap (λ x. x ++ (bs ++ drop (off + length bs) (a ++ (old ++ rest))))
      (take-append_left off a (old ++ rest) ha)
    ∙ ap (λ x. a ++ (bs ++ x)) tail
  where
    tail : drop (off + length bs) (a ++ (old ++ rest)) ≡ rest
    tail =
        ap (drop (off + length bs)) (sym (append_assoc a old rest))
        ∙ drop-append_left (off + length bs) (a ++ old) rest (omega (arith, length-append a old))

take-length : (n : ℕ) (xs : Bytes) → n ≡ length xs → take n xs ≡ xs
take-length n xs h = ap (take n) (sym (append-nil xs)) ∙ take-append_left n xs [] h

signed_lem :
    (ed : Ed25519) (i : Inputs) → signed_frame ed i ≡ checked_part ed i ++ (zeros 4 ++ zeros 4)
unfolding signed_frame
signed_lem ed i =
    let sig = ed.sign i.seed_ed25519 (signed_body i) in
    let whole : take 64 sig ≡ sig =
      take-length 64 sig (sym (ed.sign_length i.seed_ed25519 (signed_body i))) in
    let front = snlp_header i.apid i.seq_count 98 ++ signed_body i in
    rw (unsigned_lem i) (
      put_middle 40 front (take 64 sig) (zeros 64) (zeros 8) refl
        (ap length whole ∙ ed.sign_length i.seed_ed25519 (signed_body i))
      ∙ ap (λ x. front ++ (x ++ zeros 8)) whole
      ∙ sym (append_assoc front sig (zeros 8)))

pub length-checked_part : (ed : Ed25519) (i : Inputs) → length (checked_part ed i) ≡ 104
length-checked_part ed i = omega (arith, ed.sign_length i.seed_ed25519 (signed_body i))

-- The builder refuses a seed that has not 32 bytes, and makes with every other the big-endian
-- header of 14 bytes, with the lower 11 bits of the APID and the lower 14 of the sequence count, the
-- 26 padded bytes of the body, the signature over these 26 bytes only, the little-endian checksum
-- over the 104 bytes before it, which are the header and body[0..89], and four zeros.
pub build_frame :
    (ed : Ed25519) (crc : Crc32) (i : Inputs)
    → build ed crc i ≡ (if length i.seed_ed25519 == 32 then some (packet_c ed crc i) else none)
unfolding build
build_frame ed crc i =
    let front = checked_part ed i in
    let at = sym (length-checked_part ed i) in
    let check = crc.checksum_ieee front in
    let head : take 104 (signed_frame ed i) ≡ front =
      ap (take 104) (signed_lem ed i) ∙ take-append_left 104 front (zeros 8) at in
    let made : put 104 (le_bytes 4 (crc.checksum_ieee (take 104 (signed_frame ed i))))
          (signed_frame ed i)
        ≡ packet_c ed crc i =
      ap (λ x. put 104 (le_bytes 4 (crc.checksum_ieee x)) (signed_frame ed i)) head
      ∙ ap (put 104 (le_bytes 4 check)) (signed_lem ed i)
      ∙ put_middle 104 front (le_bytes 4 check) (zeros 4) (zeros 4) at refl in
    ap (λ x. if length i.seed_ed25519 == 32 then some x else none) made

pub made_of :
    (ed : Ed25519) (crc : Crc32) (i : Inputs) (frame : Bytes)
    → build ed crc i ≡ some frame
    → frame ≡ packet_c ed crc i
made_of ed crc i frame e = ground (arith, e, build_frame ed crc i)
