-- ===== src/Receipt/SampleEth.antt =====
-- Concrete stand-ins that meet the laws of the hex texts.
use void_protocol_oss.Base.{
  ℕ, ◌+◌, ◌*◌, ◌/◌, ◌%◌, ◌≤◌, ◌<◌, ◌≡◌, refl, sym, ap, ◌∙◌, [], ◌∷◌, ◌++◌, length, take, All,
  All-take, length-take, take-append_left, arith,
}
use mathlib.Core.List.{append-nil}
use void_protocol_oss.Base.Bytes.{Bytes, IsByte, codes}
use void_protocol_oss.Base.Text.{hex, hex_digit, hex-All, length-hex}
use void_protocol_oss.Receipt.Record.{IsAscii}
use void_protocol_oss.Receipt.Processor.{EthText, IsHash}

abbrev wrapped : Bytes → Bytes
wrapped [] = []
wrapped (b ∷ bs) = (b % 256) ∷ wrapped bs

wrapped-All : (bs : Bytes) → All IsByte (wrapped bs)
wrapped-All [] = tt
wrapped-All (b ∷ bs) = (omega arith, wrapped-All bs)

wrapped_bytes : (bs : Bytes) → All IsByte bs → wrapped bs ≡ bs
wrapped_bytes [] h = refl
wrapped_bytes (b ∷ bs) h = let e : b % 256 ≡ b = omega arith in rw (e, wrapped_bytes bs h.1) refl

digit-injective : (a b : ℕ) → a < 16 → b < 16 → hex_digit a ≡ hex_digit b → a ≡ b
digit-injective a b ha hb e = ground (arith, e)

hex-injective : (xs ys : Bytes) → All IsByte xs → All IsByte ys → hex xs ≡ hex ys → xs ≡ ys
hex-injective [] [] hx hy e = refl
hex-injective [] (y ∷ ys) hx hy e = cc
hex-injective (x ∷ xs) [] hx hy e = cc
hex-injective (x ∷ xs) (y ∷ ys) hx hy e =
    let hi : hex_digit (x / 16) ≡ hex_digit (y / 16) = cc in
    let lo : hex_digit (x % 16) ≡ hex_digit (y % 16) = cc in
    let rest : hex xs ≡ hex ys = cc in
    let h = digit-injective (x / 16) (y / 16) (omega arith) (omega arith) hi in
    let l = digit-injective (x % 16) (y % 16) (omega arith) (omega arith) lo in
    let same : x ≡ y = omega arith in rw (same, hex-injective xs ys hx.1 hy.1 rest) refl

abbrev pub text_of : ℕ → Bytes → Bytes
text_of n bs = codes "0x" ++ hex (take n (wrapped bs))

pub text_of-IsAscii : (n : ℕ) (bs : Bytes) → IsAscii (text_of n bs)
text_of-IsAscii n bs = (
  omega arith,
  (omega arith, hex-All (take n (wrapped bs)) (All-take IsByte n (wrapped bs) (wrapped-All bs))),
)

pub text_of-length : (n : ℕ) (bs : Bytes) → length (text_of n bs) ≤ 2 + 2 * n
text_of-length n bs = omega (arith, length-hex (take n (wrapped bs)), length-take n (wrapped bs))

whole_hash : (h : Bytes) → IsHash h → take 32 (wrapped h) ≡ h
whole_hash h (l, b) =
    ap (take 32) (wrapped_bytes h b ∙ sym (append-nil h)) ∙ take-append_left 32 h [] (sym l)

pub text_of-injective : (h k : Bytes) → IsHash h → IsHash k → text_of 32 h ≡ text_of 32 k → h ≡ k
text_of-injective h k vh vk e =
    sym (whole_hash h vh)
    ∙ hex-injective (take 32 (wrapped h)) (take 32 (wrapped k))
        (All-take IsByte 32 (wrapped h) (wrapped-All h))
        (All-take IsByte 32 (wrapped k) (wrapped-All k)) (cc)
    ∙ whole_hash k vk

abbrev pub sample_eth : EthText
sample_eth = record {
  hash_hex = text_of 32;
  address_hex = text_of 20;
  hash_ascii = text_of-IsAscii 32;
  address_ascii = text_of-IsAscii 20;
  hash_size = text_of-length 32;
  hash_injective = text_of-injective;
  address_size = text_of-length 20;
}
