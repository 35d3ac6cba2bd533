-- ===== src/Receipt/Builder/Readback.antt =====
-- What a receiver reads back from a frame of `Build`.
use void_protocol_oss.Base.{
  ℕ, ◌+◌, ◌%◌, ◌^◌, ◌<◌, ◌≡◌, refl, sym, ap, ◌∙◌, none, some, [], ◌∷◌, ◌++◌, length, take, drop,
  get_elem?, All, All-append, length-append, take-append_left, drop-append_left, drop-drop, arith,
}
use void_protocol_oss.Base.Bytes.{Bytes, IsByte}
use void_protocol_oss.Base.Ints.{pos}
use void_protocol_oss.Base.Words.{le_bytes, le_value, be_value, le_value-le_bytes}
use void_protocol_oss.Wire.Crc.{Crc32, validate_frame_crc32, validate_frame_crc32_iff}
use void_protocol_oss.Receipt.Builder.{Inputs, build, two_bytes}
use void_protocol_oss.Wire.Signature.{Ed25519}
use void_protocol_oss.Receipt.Builder.Layout.{
  packet_c, snlp_header, checked_part, signed_body, made_of, length-checked_part,
}

checked_part-All : (ed : Ed25519) (i : Inputs) → i.enc_status < 256 → All IsByte (checked_part ed i)
checked_part-All ed i h =
    let head : All IsByte (snlp_header i.apid i.seq_count 98 ++ signed_body i) = omega arith in
    All-append IsByte (snlp_header i.apid i.seq_count 98 ++ signed_body i) _ head
      (ed.sign_bytes i.seed_ed25519 (signed_body i))

abbrev check_and_tail : Ed25519 → Crc32 → Inputs → Bytes
check_and_tail ed crc i = le_bytes 4 (crc.checksum_ieee (checked_part ed i)) ++ (0 ∷ 0 ∷ 0 ∷ 0 ∷ [])

pub packet_c-All :
    (ed : Ed25519) (crc : Crc32) (i : Inputs) → i.enc_status < 256 → All IsByte (packet_c ed crc i)
packet_c-All ed crc i h =
    All-append IsByte (checked_part ed i) (check_and_tail ed crc i) (checked_part-All ed i h)
      (omega arith)

pub length-packet_c : (ed : Ed25519) (crc : Crc32) (i : Inputs) → length (packet_c ed crc i) ≡ 112
length-packet_c ed crc i =
    omega
      (arith, length-append (checked_part ed i) (check_and_tail ed crc i), length-checked_part ed i)

packet_c-gate :
    (ed : Ed25519) (crc : Crc32) (i : Inputs)
    → i.enc_status < 256
    → validate_frame_crc32 crc (packet_c ed crc i) (pos 104) ≡ none
packet_c-gate ed crc i h =
    let front = checked_part ed i in
    let tail = check_and_tail ed crc i in
    let at = sym (length-checked_part ed i) in
    (validate_frame_crc32_iff crc (packet_c ed crc i) 104 (packet_c-All ed crc i h)).1 (
      drop-append_left 104 front tail at
      ∙ sym (
          ap (λ x. le_bytes 4 (crc.checksum_ieee x) ++ drop 108 (packet_c ed crc i))
            (take-append_left 104 front tail at)
          ∙ ap (λ x. le_bytes 4 (crc.checksum_ieee front) ++ x)
              (sym (drop-drop 104 4 (packet_c ed crc i))
                ∙ ap (drop 4) (drop-append_left 104 front tail at))))

-- Every frame that the builder makes has 112 bytes, and the CRC gate lets it pass at byte 104.
pub build_passes_gate :
    (ed : Ed25519) (crc : Crc32) (i : Inputs) (frame : Bytes)
    → i.enc_status < 256
    → build ed crc i ≡ some frame
    → (length frame ≡ 112) × (validate_frame_crc32 crc frame (pos 104) ≡ none)
build_passes_gate ed crc i frame h e =
    rw (made_of ed crc i frame e) (length-packet_c ed crc i, packet_c-gate ed crc i h)

two_bytes_value : (n : ℕ) → n < 2 ^ 16 → be_value (two_bytes n) ≡ n
two_bytes_value n h = omega arith

-- For an APID below 2 ^ 11, a sequence count below 2 ^ 14, and an execution time and a transaction id
-- below 2 ^ 64, a receiver reads these and the status back from a built frame.
pub build_fields :
    (ed : Ed25519) (crc : Crc32) (i : Inputs) (frame : Bytes)
    → i.apid < 2 ^ 11
    → i.seq_count < 2 ^ 14
    → i.exec_time_ms < 2 ^ 64
    → i.enc_tx_id < 2 ^ 64
    → build ed crc i ≡ some frame
    → (be_value (take 2 (drop 4 frame)) % 2 ^ 11 ≡ i.apid)
      × (be_value (take 2 (drop 6 frame)) % 2 ^ 14 ≡ i.seq_count)
      × (le_value (take 8 (drop 16 frame)) ≡ i.exec_time_ms)
      × (le_value (take 8 (drop 24 frame)) ≡ i.enc_tx_id)
      × (get_elem? frame 32 ≡ some i.enc_status)
build_fields ed crc i frame ha hs ht hx e =
    let apid : be_value (two_bytes (0x0800 + i.apid % 2 ^ 11)) % 2 ^ 11 ≡ i.apid =
      ap (λ x. x % 2 ^ 11) (two_bytes_value (0x0800 + i.apid % 2 ^ 11) (omega arith))
      ∙ omega arith in
    let seq : be_value (two_bytes (0xC000 + i.seq_count % 2 ^ 14)) % 2 ^ 14 ≡ i.seq_count =
      ap (λ x. x % 2 ^ 14) (two_bytes_value (0xC000 + i.seq_count % 2 ^ 14) (omega arith))
      ∙ omega arith in
    rw (made_of ed crc i frame e)
      (apid, seq, le_value-le_bytes 8 i.exec_time_ms ht, le_value-le_bytes 8 i.enc_tx_id hx, refl)
