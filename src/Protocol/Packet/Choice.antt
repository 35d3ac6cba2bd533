-- ===== src/Protocol/Packet/Choice.antt =====
-- The body that a length has chosen.
use void_protocol_oss.Base.{
  ℕ, ◌≡◌, refl, sym, Bool, true, false, Option, none, some, [], ◌∷◌, slice, ==_iff, eq_of_some,
  if◌then◌else◌,
}
use mathlib.Core.Path.{subst}
use void_protocol_oss.Base.Bytes.{Bytes, bytes_eq}
use void_protocol_oss.Protocol.Reads.{chain}
use void_protocol_oss.Protocol.Payments.Layout.{
  packet_a_body_fields, packet_b_body_fields, packet_c_body_fields,
}
use void_protocol_oss.Protocol.Telemetry.Layout.{heartbeat_body_fields, packet_h_body_fields}
use void_protocol_oss.Protocol.Acks.Layout.{packet_ack_body_ccsds_fields}
use void_protocol_oss.Protocol.Packet.{
  Body, handshake, ack_ccsds, dispatch_122, payment, heartbeat, invoice, receipt, nil_body,
}
use void_protocol_oss.Protocol.Packet.Layout.{dispatch_fields, body_fields}
use void_protocol_oss.Protocol.Packet.Parts.{if_some, chain-some}

-- What the parser has made of a body of `n` bytes.
abbrev pub IsChosen : ℕ → Bytes → Body → Type 0
IsChosen n raw (handshake b) = (n ≡ 106) × (b ≡ packet_h_body_fields raw)
IsChosen n raw (ack_ccsds b) =
    (n ≡ 114)
    × (bytes_eq (slice 0 1 raw) (172 ∷ []) ≡ true)
    × (b ≡ packet_ack_body_ccsds_fields raw)
IsChosen n raw (dispatch_122 c) = (n ≡ 122) × (c ≡ dispatch_fields raw)
IsChosen n raw (payment b) = (n ≡ 178) × (b ≡ packet_b_body_fields raw)
IsChosen n raw (heartbeat b) = (n ≡ 34) × (b ≡ heartbeat_body_fields raw)
IsChosen n raw (invoice b) = (n ≡ 66) × (b ≡ packet_a_body_fields raw)
IsChosen n raw (receipt b) = (n ≡ 98) × (b ≡ packet_c_body_fields raw)
IsChosen n raw nil_body = Unit

module _ (P : Body → Type 0) where
  by_test :
      (c : Bool) (x y : Option Body)
      → (c ≡ true → (b : Body) → x ≡ some b → P b)
      → ((b : Body) → y ≡ some b → P b)
      → (b : Body) → (if c then x else y) ≡ some b
      → P b
  by_test true x y here there b e = here refl b e
  by_test false x y here there b e = there b e

  by_value : (a : Body) → P a → (b : Body) → some a ≡ some b → P b
  by_value a h b e = subst P (eq_of_some e) h

acked :
    (n : ℕ) (raw : Bytes) (b : Body)
    → n ≡ 114
    → chain
        (if bytes_eq (slice 0 1 raw) (172 ∷ [])
          then some (packet_ack_body_ccsds_fields raw)
          else none)
        (λ a. some (ack_ccsds a))
      ≡ some b
    → IsChosen n raw b
acked n raw b l e =
    let (a, x, same) =
      chain-some
        (if bytes_eq (slice 0 1 raw) (172 ∷ [])
          then some (packet_ack_body_ccsds_fields raw)
          else none)
        (λ a. some (ack_ccsds a)) b e in
    let (c, fields) =
      if_some (bytes_eq (slice 0 1 raw) (172 ∷ [])) (some (packet_ack_body_ccsds_fields raw)) a x in
    by_value (IsChosen n raw) (ack_ccsds a) (l, c, sym (eq_of_some fields)) b same

pub body_chosen : (n : ℕ) (raw : Bytes) (b : Body) → body_fields n raw ≡ some b → IsChosen n raw b
body_chosen n raw =
    let P = IsChosen n raw in
    by_test P _ _ _
      (λ c. by_value P (handshake (packet_h_body_fields raw)) ((==_iff n _).0 c, refl))
      (by_test P _ _ _ (λ c b e. acked n raw b ((==_iff n _).0 c) e)
        (by_test P _ _ _
          (λ c. by_value P (dispatch_122 (dispatch_fields raw)) ((==_iff n _).0 c, refl))
          (by_test P _ _ _
            (λ c. by_value P (payment (packet_b_body_fields raw)) ((==_iff n _).0 c, refl))
            (by_test P _ _ _
              (λ c. by_value P (heartbeat (heartbeat_body_fields raw)) ((==_iff n _).0 c, refl))
              (by_test P _ _ _
                (λ c. by_value P (invoice (packet_a_body_fields raw)) ((==_iff n _).0 c, refl))
                (by_test P _ _ _
                  (λ c. by_value P (receipt (packet_c_body_fields raw)) ((==_iff n _).0 c, refl))
                  (by_value P nil_body tt)))))))
