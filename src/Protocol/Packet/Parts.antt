-- ===== src/Protocol/Packet/Parts.antt =====
-- The parts of a frame that the parser has accepted.
use void_protocol_oss.Base.{
  ℕ, ◌+◌, ◌≤◌, ◌≡◌, refl, sym, ap, ◌∙◌, Bool, true, false, Option, none, some, length, slice, leb,
  ◌==◌, eq_of_some, if◌then◌else◌, arith,
}
use mathlib.Core.Path.{subst}
use void_protocol_oss.Base.Bytes.{Bytes}
use void_protocol_oss.Protocol.Reads.{chain}
use void_protocol_oss.Protocol.Fields.{be_at}
use void_protocol_oss.Protocol.Packet.{RoutingHeader, VoidProtocol, body_length}
use void_protocol_oss.Protocol.Packet.Layout.{
  body_fields, header_size, header_fields, with_body, with_header, tier_fields, frame_fields,
}

pub record IsFrame (bs : Bytes) (p : VoidProtocol) : Type 0 where
  pub fits : header_size p.is_snlp + body_length p.routing_header ≤ length bs
  pub headed : header_fields p.is_snlp bs ≡ some p.routing_header
  pub raw : p.raw_body ≡ slice (header_size p.is_snlp) (body_length p.routing_header) bs
  pub parsed : body_fields (body_length p.routing_header) p.raw_body ≡ some p.body
  pub tier : (be_at 4 0 bs == 486647205) ≡ p.is_snlp

pub if_some :
    {A : Type 0} (c : Bool) (x : Option A) (a : A)
    → (if c then x else none) ≡ some a
    → (c ≡ true) × (x ≡ some a)
if_some true x a e = (refl, e)
if_some false x a e = absurd (ground (arith, e))

pub chain-some :
    {A B : Type 0} (x : Option A) (g : A → Option B) (b : B)
    → chain x g ≡ some b
    → (a : A) × (x ≡ some a) × (g a ≡ some b)
chain-some none g b e = absurd (ground (arith, e))
chain-some (some a) g b e = (a, refl, e)

with_body_parts :
    (snlp : Bool) (bs : Bytes) (h : RoutingHeader) (p : VoidProtocol)
    → (be_at 4 0 bs == 486647205) ≡ snlp
    → header_fields snlp bs ≡ some h
    → header_size snlp + body_length h ≤ length bs
    → with_body snlp h (slice (header_size snlp) (body_length h) bs) ≡ some p
    → IsFrame bs p
with_body_parts snlp bs h p t eh l e =
    let raw = slice (header_size snlp) (body_length h) bs in
    let (b, x, same) =
      chain-some (body_fields (body_length h) raw)
        (λ b. some (record { is_snlp = snlp; routing_header = h; raw_body = raw; body = b })) p e in
    subst (IsFrame bs) (eq_of_some same)
      (record { fits = l; headed = eh; raw = refl; parsed = x; tier = t })

at_most : (m n : ℕ) → leb m n ≡ true → m ≤ n
at_most m n e = ground (arith, e)

tier_parts :
    (snlp : Bool) (bs : Bytes) (p : VoidProtocol)
    → (be_at 4 0 bs == 486647205) ≡ snlp
    → tier_fields snlp bs ≡ some p
    → IsFrame bs p
tier_parts snlp bs p t e =
    let (_, heads) =
      if_some (leb (header_size snlp) (length bs))
        (chain (header_fields snlp bs) (with_header snlp bs)) p e in
    let (h, x, rest) = chain-some (header_fields snlp bs) (with_header snlp bs) p heads in
    let (c, parts) =
      if_some (leb (header_size snlp + body_length h) (length bs))
        (with_body snlp h (slice (header_size snlp) (body_length h) bs)) p rest in
    with_body_parts snlp bs h p t x (at_most (header_size snlp + body_length h) (length bs) c) parts

pub frame_fields-IsFrame : (bs : Bytes) (p : VoidProtocol) → frame_fields bs ≡ some p → IsFrame bs p
frame_fields-IsFrame bs p e =
    tier_parts (be_at 4 0 bs == 486647205) bs p refl
      (if_some (leb 4 (length bs)) (tier_fields (be_at 4 0 bs == 486647205) bs) p e).1

at_least : (m n : ℕ) → m ≤ n → leb m n ≡ true
at_least m n h = ground (arith, h)

four_bytes : (snlp : Bool) (m n : ℕ) → header_size snlp + m ≤ n → (4 ≤ n) × (header_size snlp ≤ n)
four_bytes true m n h = (omega (arith, h), omega (arith, h))
four_bytes false m n h = (omega (arith, h), omega (arith, h))

-- A frame with these parts is accepted, with them.
pub parts_frame : (bs : Bytes) (p : VoidProtocol) → IsFrame bs p → frame_fields bs ≡ some p
parts_frame bs p f =
    let snlp = p.is_snlp in
    let h = p.routing_header in
    let (four, header) = four_bytes snlp (body_length h) (length bs) f.fits in
    ap (λ b. if b then tier_fields (be_at 4 0 bs == 486647205) bs else none)
      (at_least 4 (length bs) four)
    ∙ ap (λ b. tier_fields b bs) f.tier
    ∙ ap (λ b. if b then chain (header_fields snlp bs) (with_header snlp bs) else none)
        (at_least (header_size snlp) (length bs) header)
    ∙ ap (λ x. chain x (with_header snlp bs)) f.headed
    ∙ ap (λ b. if b then with_body snlp h (slice (header_size snlp) (body_length h) bs) else none)
        (at_least (header_size snlp + body_length h) (length bs) f.fits)
    ∙ ap (with_body snlp h) (sym f.raw)
    ∙ ap
        (λ x. chain x (λ b.
          some (record { is_snlp = snlp; routing_header = h; raw_body = p.raw_body; body = b })))
        f.parsed
