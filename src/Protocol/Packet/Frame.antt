-- ===== src/Protocol/Packet/Frame.antt =====
-- What the parser makes of a frame.
use void_protocol_oss.Base.{
  ℕ, ◌+◌, ◌≡◌, refl, sym, ap, ◌∙◌, inl, inr, Bool, true, false, Option, none, some, length, slice,
  leb, ◌==◌, Bool-cases, Option-cases, eq_of_some, if◌then◌else◌, arith,
}
use void_protocol_oss.Base.Bytes.{Bytes, bytes_eq}
use void_protocol_oss.Base.Words.{be_value}
use void_protocol_oss.Protocol.Kaitai.{Kaitai, Parser, pure, continue, only, lift, ◌>>=◌}
use void_protocol_oss.Protocol.Reads.{
  Reads, chain, bind-Reads, map-Reads, last-Reads, read_start, read_from, stops_at,
}
use void_protocol_oss.Protocol.Fields.{
  be_at, ccsds_at, bytes-Reads, u4be-Reads, ccsds-Reads, valid-Reads,
}
use void_protocol_oss.Protocol.Header.{SnlpHeader, sync_bytes, read_snlp_header}
use void_protocol_oss.Protocol.Packet.{
  RoutingHeader, ccsds_tier, snlp_tier, VoidProtocol, body_length, magic_peek, read_is_snlp,
  read_body, read_routing_header, read_void_protocol,
}
use void_protocol_oss.Protocol.Packet.Layout.{
  body_fields, header_size, header_fields, with_body, with_header, tier_fields, frame_fields,
}
use void_protocol_oss.Protocol.Packet.Peek.{Holds, peeked, peek_short}
use void_protocol_oss.Protocol.Packet.Bodies.{body_lem, length-slice}

abbrev snlp_at : ℕ → Bytes → SnlpHeader
snlp_at o bs = record {
  sync_word = slice o 4 bs;
  ccsds = ccsds_at (o + 4) bs;
  align_pad = be_at 4 (o + 4 + 6) bs;
}

abbrev header_at : Bool → Bytes → ℕ → Option RoutingHeader
header_at false bs o = some (ccsds_tier (ccsds_at o bs))
header_at true bs o =
    chain
      (if bytes_eq (slice o 4 bs) sync_bytes
        then (if be_at 4 (o + 4 + 6) bs == 0 then some (snlp_at o bs) else none)
        else none)
      (λ h. some (snlp_tier h))

header_start : (snlp : Bool) (bs : Bytes) → header_at snlp bs 0 ≡ header_fields snlp bs
header_start false bs = refl
header_start true bs = ground arith

guarded :
    {A B : Type 0} (c : Bool) (x : Option A) (g : A → Option B)
    → (if c then chain x g else none) ≡ chain (if c then x else none) g
guarded true x g = refl
guarded false x g = refl

module _ (k : Kaitai) where
  snlp-Reads : Reads k.view (read_snlp_header k) 14 (λ bs o.
      if bytes_eq (slice o 4 bs) sync_bytes
      then (if be_at 4 (o + 4 + 6) bs == 0 then some (snlp_at o bs) else none)
      else none)
  unfolding read_snlp_header
  snlp-Reads = bind-Reads (bytes-Reads k 4) λ sync. valid-Reads (bytes_eq sync sync_bytes) (
      bind-Reads (ccsds-Reads k) λ c.
        last-Reads
          (λ pad.
            if pad == 0
            then some (record { sync_word = sync; ccsds = c; align_pad = pad })
            else none)
          (u4be-Reads k) (λ bs o pad l e s. ground arith))

  routing-Reads :
      (snlp : Bool) → Reads k.view (read_routing_header k snlp) (header_size snlp) (header_at snlp)
  unfolding read_routing_header
  routing-Reads false = map-Reads _ (ccsds-Reads k)
  routing-Reads true = map-Reads _ snlp-Reads

  abbrev after_header : Bool → RoutingHeader → Parser k.Stream VoidProtocol
  after_header snlp h = do
    raw ← k.read_bytes (body_length h)
    body ← read_body k (body_length h) raw
    pure (record { is_snlp = snlp; routing_header = h; raw_body = raw; body = body })

  after_body :
      (snlp : Bool) (h : RoutingHeader) (raw : Bytes) (s : k.Stream)
      → length raw ≡ body_length h
      → (read_body k (body_length h) raw >>= λ body.
            pure (record { is_snlp = snlp; routing_header = h; raw_body = raw; body = body }))
          s
        ≡ lift (with_body snlp h raw) s
  after_body snlp h raw s l = elim (Option-cases (body_fields (body_length h) raw)) [
    | inl e ↦ rw (body_lem k (body_length h) raw s l) (rw e refl)
    | inr (b, e) ↦ rw (body_lem k (body_length h) raw s l) (rw e refl)
  ]

  after_header-Reads :
      (snlp : Bool) (h : RoutingHeader)
      → Reads k.view
          (after_header snlp h)
          (body_length h)
          (λ bs o. with_body snlp h (slice o (body_length h) bs))
  after_header-Reads snlp h =
      last-Reads (with_body snlp h) (bytes-Reads k (body_length h)) (λ bs o raw l e s.
        after_body snlp h raw s
          (ap length (sym (eq_of_some e)) ∙ length-slice o (body_length h) bs l))

  tier_lem :
      (snlp : Bool) (bs : Bytes) (s : k.Stream)
      → Holds k bs 0 s
      → only ((read_routing_header k snlp >>= after_header snlp) s) ≡ tier_fields snlp bs
  tier_lem snlp bs s v =
      let heads : only (read_routing_header k snlp s)
          ≡ (if leb (header_size snlp) (length bs) then header_fields snlp bs else none) =
        read_start bs s (routing-Reads snlp) v
        ∙ ap (λ x. if leb (header_size snlp) (length bs) then x else none) (header_start snlp bs) in
      let fields : tier_fields snlp bs
          ≡ chain (only (read_routing_header k snlp s)) (with_header snlp bs) =
        guarded (leb (header_size snlp) (length bs)) (header_fields snlp bs) (with_header snlp bs)
        ∙ ap (λ x. chain x (with_header snlp bs)) (sym heads) in
      elim (Option-cases (read_routing_header k snlp s)) [
        | inl e ↦
            ap (λ x. only (continue x (after_header snlp))) e
            ∙ sym (fields ∙ ap (λ x. chain (only x) (with_header snlp bs)) e)
        | inr ((h, s'), e) ↦
            ap (λ x. only (continue x (after_header snlp))) e
            ∙ read_from bs (header_size snlp) s' (after_header-Reads snlp h)
                (stops_at bs s s' h (routing-Reads snlp) v e)
            ∙ sym (fields ∙ ap (λ x. chain (only x) (with_header snlp bs)) e)
      ]

-- The parser reads a frame as its layout says, whatever implements the stream: the tier by the
-- first four bytes, the header, the body's length, and the body by that length; it refuses what
-- is too short, and a wrong magic byte or padding.
pub read_void_protocol-fields :
    (k : Kaitai) (bs : Bytes) → only (read_void_protocol k (k.new_stream bs)) ≡ frame_fields bs
unfolding read_void_protocol read_is_snlp magic_peek
read_void_protocol-fields k bs = elim (Bool-cases (leb 4 (length bs))) [
  | inl b ↦
      let (s, e, v) =
        peeked k k.read_u4be 4 be_value (u4be-Reads k) bs 0 (k.new_stream bs) (k.new_lem bs)
          (ground (arith, b)) in
      rw (e, b) (tier_lem k (be_at 4 0 bs == 486647205) bs s v)
  | inr b ↦ rw (peek_short k bs (k.new_stream bs) (k.new_lem bs) (ground (arith, b)), b) refl
]
