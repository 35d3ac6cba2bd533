-- ===== src/Protocol/Packet/Bodies.antt =====
-- What the parser makes of a body.
use void_protocol_oss.Base.{
  ℕ, ◌+◌, ◌≤◌, ◌≡◌, refl, ap, ◌∙◌, inl, inr, true, Option, none, some, [], ◌∷◌, length, slice, drop,
  length-take, length-drop, ◌==◌, ==_iff, Bool-cases, if◌then◌else◌, arith,
}
use void_protocol_oss.Base.Bytes.{Bytes, bytes_eq}
use void_protocol_oss.Base.Words.{le_value}
use void_protocol_oss.Protocol.Kaitai.{Kaitai, Parser, pure, continue, only, lift}
use void_protocol_oss.Protocol.Reads.{chain}
use void_protocol_oss.Protocol.Fields.{le_at, u1-Reads}
use void_protocol_oss.Protocol.Payments.Layout.{
  packet_a_body_fields, packet_b_body_fields, packet_c_body_fields, read_packet_a_body-fields,
  read_packet_b_body-fields, read_packet_c_body-fields,
}
use void_protocol_oss.Protocol.Telemetry.Layout.{
  heartbeat_body_fields, packet_h_body_fields, packet_d_body_fields, read_heartbeat_body-fields,
  read_packet_h_body-fields, read_packet_d_body-fields,
}
use void_protocol_oss.Protocol.Acks.Layout.{
  packet_ack_body_ccsds_fields, packet_ack_body_snlp_fields, read_packet_ack_body_ccsds-fields,
  read_packet_ack_body_snlp-fields,
}
use void_protocol_oss.Protocol.Acks.{read_packet_ack_body_snlp, read_packet_ack_body_ccsds}
use void_protocol_oss.Protocol.Payments.{read_packet_a_body, read_packet_b_body, read_packet_c_body}
use void_protocol_oss.Protocol.Telemetry.{
  read_heartbeat_body, read_packet_h_body, read_packet_d_body,
}
use void_protocol_oss.Protocol.Packet.{
  ack_snlp, delivery, Body, handshake, ack_ccsds, dispatch_122, payment, heartbeat, invoice,
  receipt, dispatch_magic_peek, read_dispatch_122, inside, read_body,
}
use void_protocol_oss.Protocol.Packet.Layout.{dispatch_fields, body_fields}
use void_protocol_oss.Protocol.Packet.Peek.{peeked}

magic_byte :
    (raw : Bytes) (m : ℕ)
    → 1 ≤ length raw
    → (le_at 1 0 raw == m) ≡ true
    → bytes_eq (slice 0 1 raw) (m ∷ []) ≡ true
magic_byte [] m l e = absurd (omega arith)
magic_byte (b ∷ raw) m l e = ground (arith, e)

only_map :
    {S A B : Type 0} (h : A → B) (x : Option (A × S)) (a : A)
    → only x ≡ some a
    → only (continue x (λ b. pure (h b))) ≡ some (h a)
only_map h none a e = absurd (cc)
only_map {A = A} h (some (b, s)) a e = ap (λ (y : Option A). chain y (λ c. some (h c))) e

pub length-slice : (o n : ℕ) (bs : Bytes) → o + n ≤ length bs → length (slice o n bs) ≡ n
length-slice o n bs l = omega (arith, length-take n (drop o bs), length-drop o bs)

module _ (k : Kaitai) where
  dispatch_lem :
      (raw : Bytes)
      → length raw ≡ 122
      → only (read_dispatch_122 k (k.new_stream raw)) ≡ some (dispatch_fields raw)
  unfolding read_dispatch_122 dispatch_magic_peek
  dispatch_lem raw l =
      let (s', e, v) =
        peeked k k.read_u1 1 le_value (u1-Reads k) raw 0 (k.new_stream raw) (k.new_lem raw)
          (omega arith) in
      elim (Bool-cases (le_at 1 0 raw == 172)) [
        | inl b ↦
            rw (e, b)
              (only_map ack_snlp (read_packet_ack_body_snlp k s') (packet_ack_body_snlp_fields raw)
                (read_packet_ack_body_snlp-fields k raw s' v l
                  ∙ rw (magic_byte raw 172 (omega arith) b) refl))
        | inr b ↦ elim (Bool-cases (le_at 1 0 raw == 208)) [
          | inl d ↦
              rw (e, b, d)
                (only_map delivery (read_packet_d_body k s') (packet_d_body_fields raw) (
                  read_packet_d_body-fields k raw s' v l
                  ∙ rw (magic_byte raw 208 (omega arith) d) refl))
          | inr d ↦ rw (e, b, d) refl
        ]
      ]

  inside_lem :
      {A : Type 0} (p : Parser k.Stream A) (as_body : A → Body) (raw : Bytes) (x : Option A)
      (s : k.Stream)
      → only (p (k.new_stream raw)) ≡ x
      → inside k p as_body raw s ≡ lift (chain x (λ a. some (as_body a))) s
  inside_lem p as_body raw none s e = rw e refl
  inside_lem p as_body raw (some a) s e = rw e refl

  abbrev InsideLem : {A : Type 0} → ℕ → (Bytes → Option A) → Parser k.Stream A → Type 0
  InsideLem n f p = (raw : Bytes) → length raw ≡ n → only (p (k.new_stream raw)) ≡ f raw

  -- One length of the switch.
  case :
      {A : Type 0} (w n : ℕ) (p : Parser k.Stream A) (f : Bytes → Option A) (as_body : A → Body)
      (rest : Parser k.Stream Body) (other : Option Body) (raw : Bytes) (s : k.Stream)
      → InsideLem w f p
      → length raw ≡ n
      → rest s ≡ lift other s
      → (if n == w then inside k p as_body raw else rest) s
        ≡ lift (if n == w then chain (f raw) (λ a. some (as_body a)) else other) s
  case w n p f as_body rest other raw s h l r = elim (Bool-cases (n == w)) [
    | inl e ↦ rw e (inside_lem p as_body raw (f raw) s (h raw (l ∙ (==_iff n w).0 e)))
    | inr e ↦ rw e r
  ]

  pub body_lem :
      (n : ℕ) (raw : Bytes) (s : k.Stream)
      → length raw ≡ n
      → read_body k n raw s ≡ lift (body_fields n raw) s
  unfolding read_body
  body_lem n raw s l =
      case 106 n (read_packet_h_body k) (λ r. some (packet_h_body_fields r)) handshake _ _ raw s
        (λ r e. read_packet_h_body-fields k r (k.new_stream r) (k.new_lem r) e) l
        (case 114 n (read_packet_ack_body_ccsds k)
          (λ r.
            if bytes_eq (slice 0 1 r) (172 ∷ [])
            then some (packet_ack_body_ccsds_fields r)
            else none)
          ack_ccsds _ _ raw s
          (λ r e. read_packet_ack_body_ccsds-fields k r (k.new_stream r) (k.new_lem r) e) l
          (case 122 n (read_dispatch_122 k) (λ r. some (dispatch_fields r)) dispatch_122 _ _ raw s
            dispatch_lem l
            (case 178 n (read_packet_b_body k) (λ r. some (packet_b_body_fields r)) payment _ _ raw
              s (λ r e. read_packet_b_body-fields k r (k.new_stream r) (k.new_lem r) e) l
              (case 34 n (read_heartbeat_body k) (λ r. some (heartbeat_body_fields r)) heartbeat _ _
                raw s (λ r e. read_heartbeat_body-fields k r (k.new_stream r) (k.new_lem r) e) l
                (case 66 n (read_packet_a_body k) (λ r. some (packet_a_body_fields r)) invoice _ _
                  raw s (λ r e. read_packet_a_body-fields k r (k.new_stream r) (k.new_lem r) e) l
                  (case 98 n (read_packet_c_body k) (λ r. some (packet_c_body_fields r)) receipt _ _
                    raw s (λ r e. read_packet_c_body-fields k r (k.new_stream r) (k.new_lem r) e) l
                    (refl)))))))
