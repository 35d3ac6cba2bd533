-- ===== src/Ingest/Receipts.antt =====
-- The receipts at the endpoint: those of the builder, and one that was put together.
use Prim.Native.Nat.{bit_and}
use mathlib.Core.List.{append-nil}
use void_protocol_oss.Base.{
  ℕ, ◌+◌, ◌-◌, ◌/◌, ◌%◌, ◌^◌, ◌<◌, ◌≡◌, refl, sym, ap, ◌∙◌, Bool, true, some, [], ◌∷◌, ◌++◌, length,
  length-append, take, drop, slice, take-append_left, drop-append_left, drop-drop, replicate, All,
  All-append, arith,
}
use mathlib.Core.Path.{subst}
use void_protocol_oss.Base.Bits.{bit_and_mask}
use void_protocol_oss.Base.Bytes.{Bytes, IsByte}
use void_protocol_oss.Base.Words.{be_value}
use void_protocol_oss.Protocol.Payments.Layout.{packet_c_body_fields}
use void_protocol_oss.Protocol.Header.{apid, version, data_field_length}
use void_protocol_oss.Protocol.Packet.{
  RoutingHeader, snlp_tier, receipt, VoidProtocol, body_length, ccsds_of, global_apid,
}
use void_protocol_oss.Protocol.Packet.Layout.{frame_fields, body_fields}
use void_protocol_oss.Protocol.Packet.Parts.{parts_frame}
use void_protocol_oss.Base.Dict.{nat_Eq, lookup}
use void_protocol_oss.Base.Text.{hex_decode}
use void_protocol_oss.Base.Words.{le_bytes}
use void_protocol_oss.Wire.Crc.{Crc32}
use void_protocol_oss.Wire.Signature.{Ed25519}
use void_protocol_oss.Protocol.Kaitai.{Kaitai}
use void_protocol_oss.Registry.{Registry, SatRecord}
use void_protocol_oss.Registry.DemoKey.{IsAuthentic}
use void_protocol_oss.Ingest.{success, ingest_packet}
use void_protocol_oss.Ingest.Outcome.{ingest_packet_success_iff}
use void_protocol_oss.Receipt.Builder.{Inputs, build, two_bytes}
use void_protocol_oss.Receipt.Builder.Layout.{
  snlp_header, signed_body, checked_part, build_frame, made_of,
}
use void_protocol_oss.Receipt.Builder.Readback.{packet_c-All}

two_bytes_value : (n : ℕ) → n < 2 ^ 16 → be_value (two_bytes n) ≡ n
two_bytes_value n h = omega arith

abbrev pub header_of : ℕ → ℕ → RoutingHeader
header_of a c = snlp_tier (record {
  sync_word = 0x1D ∷ 0x01 ∷ 0xA5 ∷ 0xA5 ∷ [];
  ccsds = record {
    version_type_flag_apid = be_value (two_bytes (0x0800 + a % 2 ^ 11));
    seq_flags_count = be_value (two_bytes (0xC000 + c % 2 ^ 14));
    packet_data_length = 97;
  };
  align_pad = 0;
})

abbrev pub receipt_frame : ℕ → ℕ → Bytes → VoidProtocol
receipt_frame a c bd = record {
  is_snlp = true;
  routing_header = header_of a c;
  raw_body = bd;
  body = receipt (packet_c_body_fields bd);
}

size_lem : (a c : ℕ) → body_length (header_of a c) ≡ 98
unfolding body_length data_field_length
size_lem a c = refl

frame_lem :
    (a c : ℕ) (bd rest : Bytes)
    → length bd ≡ 98
    → frame_fields (snlp_header a c 98 ++ (bd ++ rest)) ≡ some (receipt_frame a c bd)
frame_lem a c bd rest l =
    let raw = snlp_header a c 98 ++ (bd ++ rest) in
    let sized : length raw ≡ 14 + (98 + length rest) = omega (arith, length-append bd rest, l) in
    parts_frame raw (receipt_frame a c bd) (record {
      fits = omega (arith, sized, size_lem a c);
      headed = refl;
      raw =
          sym (ap (λ n. take n (bd ++ rest)) (size_lem a c) ∙ take-append_left 98 bd rest (sym l));
      parsed = ap (λ n. body_fields n bd) (size_lem a c);
      tier = refl;
    })

version_lem : (a c : ℕ) → version (ccsds_of (header_of a c)) ≡ 0
unfolding version
version_lem a c =
    let value = two_bytes_value (0x0800 + a % 2 ^ 11) (omega arith) in
    let high : be_value (two_bytes (0x0800 + a % 2 ^ 11)) / 2 ^ 13 ≡ 0 = omega (arith, value) in
    ap (λ n. bit_and n 7) high

sender_lem : (a c : ℕ) (bd : Bytes) → global_apid (receipt_frame a c bd) ≡ a % 2 ^ 11
unfolding global_apid apid
sender_lem a c bd =
    let value = two_bytes_value (0x0800 + a % 2 ^ 11) (omega arith) in
    bit_and_mask 11 (be_value (two_bytes (0x0800 + a % 2 ^ 11))) 2047 refl ∙ omega (arith, value)

drop_header : (a c : ℕ) (bs : Bytes) (n : ℕ) → drop (14 + n) (snlp_header a c 98 ++ bs) ≡ drop n bs
drop_header a c bs n = sym (drop-drop 14 n (snlp_header a c 98 ++ bs))

-- A receipt's frame whose last 98 bytes begin with 26 bytes that satellite 100 has signed.
module _ (k : Kaitai) (ed : Ed25519) (crc : Crc32) (hex_to_address : Bytes → Bytes) (db : Registry)
    (wired : Bool) where
  receipt_accepted :
      (a c : ℕ) (bd rest : Bytes)
      → All IsByte (snlp_header a c 98 ++ (bd ++ rest))
      → length bd ≡ 98
      → IsAuthentic ed db 100 (slice (length rest) 26 (bd ++ rest)) (slice 26 64 bd)
      → (ingest_packet k ed crc hex_to_address db wired
          (some (snlp_header a c 98 ++ (bd ++ rest)))).0
        ≡ success (a % 2 ^ 11) true
  receipt_accepted a c bd rest hb l v =
      let raw = snlp_header a c 98 ++ (bd ++ rest) in
      let from : length raw - 98 ≡ 14 + length rest = omega (arith, length-append bd rest, l) in
      let message : slice (length raw - 98) 26 raw ≡ slice (length rest) 26 (bd ++ rest) =
        ap (λ n. slice n 26 raw) from ∙ ap (take 26) (drop_header a c (bd ++ rest) (length rest)) in
      (ingest_packet_success_iff k ed crc hex_to_address db wired raw (a % 2 ^ 11) true hb).1
        (record {
          frame = receipt_frame a c bd;
          parsed = frame_lem a c bd rest l;
          known_version = version_lem a c;
          content = subst (λ m. IsAuthentic ed db 100 m (slice 26 64 bd)) (sym message) v;
          sender = sender_lem a c bd;
          tier = refl;
        })

  -- Where satellite 100 is registered with the public key of a seed, the endpoint accepts every
  -- frame that the receipt builder makes with the seed, and reports its APID.
  pub built_receipt_accepted :
      (i : Inputs) (frame : Bytes) (rec : SatRecord)
      → i.enc_status < 256
      → lookup 100 db ≡ some rec
      → hex_decode rec.pub_key_hex ≡ some (ed.public_key i.seed_ed25519)
      → build ed crc i ≡ some frame
      → (ingest_packet k ed crc hex_to_address db wired (some frame)).0
        ≡ success (i.apid % 2 ^ 11) true
  built_receipt_accepted i frame rec h r d e =
      let msg = signed_body i in
      let sig = ed.sign i.seed_ed25519 msg in
      let sized = ed.sign_length i.seed_ed25519 msg in
      let tail = le_bytes 4 (crc.checksum_ieee (checked_part ed i)) ++ replicate 4 0 in
      let bd = msg ++ (sig ++ tail) in
      let whole : frame ≡ snlp_header i.apid i.seq_count 98 ++ (bd ++ []) =
        made_of ed crc i frame e
        ∙ ap (λ x. snlp_header i.apid i.seq_count 98 ++ x) (sym (append-nil bd)) in
      let seeded : length i.seed_ed25519 ≡ 32 = ground (arith, e, build_frame ed crc i) in
      let signature : slice 26 64 bd ≡ sig = take-append_left 64 sig tail (sym sized) in
      rw whole (
        receipt_accepted i.apid i.seq_count bd []
          (subst (All IsByte) (sym (made_of ed crc i frame e) ∙ whole) (packet_c-All ed crc i h))
          (omega (arith, length-append sig tail, sized))
          (record {
            rec = rec;
            key = ed.public_key i.seed_ed25519;
            registered = r;
            decoded = d;
            sized = ed.public_length i.seed_ed25519;
            signed_by =
                ap (ed.verify (ed.public_key i.seed_ed25519) msg) signature
                ∙ ed.verify_sign i.seed_ed25519 msg seeded;
          }))

  -- From any 26 bytes that satellite 100 has signed, and any 26 bytes of other fields, a request is
  -- put together that the parser reads as a receipt of the other fields, and that the endpoint
  -- accepts: the signed bytes stand behind the frame, where the check takes them from.
  pub forged_receipt_accepted :
      (a c : ℕ) (fields tail msg sig pad : Bytes)
      → length fields ≡ 26
      → length tail ≡ 8
      → length msg ≡ 26
      → length sig ≡ 64
      → length pad ≡ 72
      → All IsByte (fields ++ (sig ++ tail))
      → All IsByte (msg ++ pad)
      → IsAuthentic ed db 100 msg sig
      → (frame_fields (snlp_header a c 98 ++ ((fields ++ (sig ++ tail)) ++ (msg ++ pad)))
          ≡ some (receipt_frame a c (fields ++ (sig ++ tail))))
        × ((ingest_packet k ed crc hex_to_address db wired
              (some (snlp_header a c 98 ++ ((fields ++ (sig ++ tail)) ++ (msg ++ pad))))).0
            ≡ success (a % 2 ^ 11) true)
  forged_receipt_accepted a c fields tail msg sig pad lf lt lm ls lp hb hr v =
      let bd = fields ++ (sig ++ tail) in
      let rest = msg ++ pad in
      let sized : length bd ≡ 98 =
        omega (arith, length-append fields (sig ++ tail), length-append sig tail, lf, lt, ls) in
      let behind : length rest ≡ 98 = omega (arith, length-append msg pad, lm, lp) in
      let message : slice (length rest) 26 (bd ++ rest) ≡ msg =
        ap (take 26) (drop-append_left (length rest) bd rest (behind ∙ sym sized))
        ∙ take-append_left 26 msg pad (sym lm) in
      let signature : slice 26 64 bd ≡ sig =
        ap (take 64) (drop-append_left 26 fields (sig ++ tail) (sym lf))
        ∙ take-append_left 64 sig tail (sym ls) in
      (
        frame_lem a c bd rest sized,
        receipt_accepted a c bd rest
            (All-append IsByte (snlp_header a c 98) (bd ++ rest) (omega arith)
              (All-append IsByte bd rest hb hr))
            sized
            (subst (λ m. IsAuthentic ed db 100 m (slice 26 64 bd)) (sym message)
              (subst (IsAuthentic ed db 100 msg) (sym signature) v)),
      )
