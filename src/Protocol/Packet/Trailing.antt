-- ===== src/Protocol/Packet/Trailing.antt =====
-- The parser and the bytes behind the frame.
use void_protocol_oss.Base.{
  ℕ, zero, suc, ◌+◌, ◌≤◌, ◌≡◌, refl, sym, ap, ◌∙◌, Bool, true, false, some, [], ◌∷◌, ◌++◌, length,
  length-append, take, slice, ◌==◌, arith,
}
use void_protocol_oss.Base.Bytes.{Bytes}
use void_protocol_oss.Base.Words.{be_value}
use void_protocol_oss.Protocol.Kaitai.{Kaitai, only}
use void_protocol_oss.Protocol.Packet.{VoidProtocol, body_length, read_void_protocol}
use void_protocol_oss.Protocol.Packet.Layout.{header_size, header_fields}
use void_protocol_oss.Protocol.Packet.Frame.{read_void_protocol-fields}
use void_protocol_oss.Protocol.Packet.Parts.{IsFrame, frame_fields-IsFrame, parts_frame}

take-append_short : (n : ℕ) (xs ys : Bytes) → n ≤ length xs → take n (xs ++ ys) ≡ take n xs
take-append_short zero xs ys h = refl
take-append_short (suc n) [] ys h = absurd (omega (arith, h))
take-append_short (suc n) (x ∷ xs) ys h =
    ap (λ zs. x ∷ zs) (take-append_short n xs ys (omega (arith, h)))

slice-append : (i n : ℕ) (xs ys : Bytes) → i + n ≤ length xs → slice i n (xs ++ ys) ≡ slice i n xs
slice-append zero n xs ys h = take-append_short n xs ys (omega (arith, h))
slice-append (suc i) n [] ys h = let z : n ≡ 0 = omega (arith, h) in absurd (omega (arith, h))
slice-append (suc i) n (x ∷ xs) ys h = slice-append i n xs ys (omega (arith, h))

header_fields-append :
    (snlp : Bool) (bs rest : Bytes)
    → header_size snlp ≤ length bs
    → header_fields snlp (bs ++ rest) ≡ header_fields snlp bs
header_fields-append false bs rest h =
    rw
      (
        slice-append 0 2 bs rest (omega (arith, h)),
        slice-append 2 2 bs rest (omega (arith, h)),
        slice-append 4 2 bs rest (omega (arith, h)),
      )
      refl
header_fields-append true bs rest h =
    rw
      (
        slice-append 0 4 bs rest (omega (arith, h)),
        slice-append 4 2 bs rest (omega (arith, h)),
        slice-append 6 2 bs rest (omega (arith, h)),
        slice-append 8 2 bs rest (omega (arith, h)),
        slice-append 10 4 bs rest (omega (arith, h)),
      )
      refl

smallest : (snlp : Bool) (m n : ℕ) → header_size snlp + m ≤ n → (4 ≤ n) × (header_size snlp ≤ n)
smallest true m n h = (omega (arith, h), omega (arith, h))
smallest false m n h = (omega (arith, h), omega (arith, h))

IsFrame-append : (bs rest : Bytes) (p : VoidProtocol) → IsFrame bs p → IsFrame (bs ++ rest) p
IsFrame-append bs rest p f =
    let h = f.fits in
    let (four, header) = smallest p.is_snlp (body_length p.routing_header) (length bs) h in
    record {
      fits = omega (arith, h, length-append bs rest);
      headed = header_fields-append p.is_snlp bs rest header ∙ f.headed;
      raw =
          f.raw
          ∙ sym (slice-append (header_size p.is_snlp) (body_length p.routing_header) bs rest h);
      parsed = f.parsed;
      tier = ap (λ x. be_value x == 486647205) (slice-append 0 4 bs rest four) ∙ f.tier;
    }

-- What the parser accepts it accepts with any bytes behind, as the same frame: it does not look
-- past the end of the body that the header announces.
pub read_void_protocol-append :
    (k : Kaitai) (bs rest : Bytes) (p : VoidProtocol)
    → only (read_void_protocol k (k.new_stream bs)) ≡ some p
    → only (read_void_protocol k (k.new_stream (bs ++ rest))) ≡ some p
read_void_protocol-append k bs rest p e =
    read_void_protocol-fields k (bs ++ rest)
    ∙ parts_frame (bs ++ rest) p (
        IsFrame-append bs rest p
          (frame_fields-IsFrame bs p (sym (read_void_protocol-fields k bs) ∙ e)))
