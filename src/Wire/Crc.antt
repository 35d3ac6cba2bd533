-- ===== src/Wire/Crc.antt =====
-- gateway/internal/void_protocol/crc.go: the CRC gate, over the library's checksum.
use void_protocol_oss.Base.{
  ℕ, ◌+◌, ◌^◌, ◌≤◌, ◌<◌, ◌≡◌, sym, ap, ◌∙◌, ◌↔◌, inl, inr, Option, none, some, ◌++◌, length, take,
  drop, All, length-take, length-drop, take-append-drop, take-append_left, drop-drop, All-take,
  All-drop, ltb, ◌==◌, Bool-cases, if◌then◌else◌, arith,
}
use void_protocol_oss.Base.Bytes.{Bytes, IsByte}
use void_protocol_oss.Base.Ints.{ℤ, pos, negsuc}
use void_protocol_oss.Base.Words.{
  le_bytes, le_value, length-le_bytes, le_value-le_bytes, le_bytes-le_value,
}

-- `crc32.ChecksumIEEE` returns a uint32.
pub record Crc32 : Type 0 where
  pub checksum_ieee : Bytes → ℕ
  pub u32 : (m : Bytes) → checksum_ieee m < 2 ^ 32

abbrev pub packet_d_crc_offset_from_end : ℕ
packet_d_crc_offset_from_end = 10

abbrev pub packet_ack_crc_offset_from_end : ℕ
packet_ack_crc_offset_from_end = 4

pub data CrcError : Type 0 where
  out_of_bounds crc_mismatch : CrcError

module _ (crc : Crc32) where
  unfoldable pub validate_frame_crc32 : Bytes → ℤ → Option CrcError
  validate_frame_crc32 frame (negsuc n) = some out_of_bounds
  validate_frame_crc32 frame (pos crc_offset) =
      if ltb (length frame) (crc_offset + 4)
      then some out_of_bounds
      else if le_value (take 4 (drop crc_offset frame)) == crc.checksum_ieee (take crc_offset frame)
      then none
      else some crc_mismatch

  wire_bytes :
      (frame : Bytes) (n : ℕ)
      → All IsByte frame
      → n + 4 ≤ length frame
      → le_bytes 4 (le_value (take 4 (drop n frame))) ≡ take 4 (drop n frame)
  wire_bytes frame n hb hl =
      le_bytes-le_value 4 (take 4 (drop n frame))
        (omega (arith, length-take 4 (drop n frame), length-drop n frame))
        (All-take IsByte 4 (drop n frame) (All-drop IsByte n frame hb))

  split_at : (frame : Bytes) (n : ℕ) → drop n frame ≡ take 4 (drop n frame) ++ drop (n + 4) frame
  split_at frame n =
      sym (take-append-drop 4 (drop n frame))
      ∙ ap (λ x. take 4 (drop n frame) ++ x) (drop-drop n 4 frame)

  -- The gate lets a frame pass at an offset exactly when the four bytes there are the checksum of
  -- the bytes before them, little-endian; in particular they lie inside the frame.
  pub validate_frame_crc32_iff :
      (frame : Bytes) (n : ℕ)
      → All IsByte frame
      → (validate_frame_crc32 frame (pos n) ≡ none)
        ↔ (drop n frame ≡ le_bytes 4 (crc.checksum_ieee (take n frame)) ++ drop (n + 4) frame)
  unfolding validate_frame_crc32
  validate_frame_crc32_iff frame n hb = (
    λ e. elim (Bool-cases (ltb (length frame) (n + 4))) [
      | inl c ↦ absurd (ground (arith, e, c))
      | inr c ↦
          elim (Bool-cases (le_value (take 4 (drop n frame)) == crc.checksum_ieee (take n frame))) [
            | inl d ↦
                split_at frame n
                ∙ ap (λ x. x ++ drop (n + 4) frame)
                    (sym (wire_bytes frame n hb (ground (arith, c)))
                      ∙ ap (le_bytes 4) (ground (arith, d)))
            | inr d ↦ absurd (ground (arith, e, c, d))
          ]
    ],
    λ e.
        let c = crc.checksum_ieee (take n frame) in
        let f : take 4 (drop n frame) ≡ le_bytes 4 c =
          ap (take 4) e
          ∙ take-append_left 4 (le_bytes 4 c) (drop (n + 4) frame) (sym (length-le_bytes 4 c)) in
        let g : le_value (take 4 (drop n frame)) ≡ c =
          ap le_value f ∙ le_value-le_bytes 4 c (crc.u32 (take n frame)) in
        let l : n + 4 ≤ length frame = omega (
          arith,
          ap length f,
          length-le_bytes 4 c,
          length-take 4 (drop n frame),
          length-drop n frame,
        ) in
        ground (arith, g, l),
  )
