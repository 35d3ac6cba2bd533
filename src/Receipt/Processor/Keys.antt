-- ===== src/Receipt/Processor/Keys.antt =====
-- The key under which Handle stores an event's receipt.
use void_protocol_oss.Base.{◌≡◌, refl, [], ◌∷◌, ◌++◌, All, arith}
use void_protocol_oss.Base.Bytes.{Bytes}
use void_protocol_oss.Base.Text.{IsDigit, decimal, decimal-All, decimal-injective}
use void_protocol_oss.Chain.Watcher.{SettlementEvent}
use void_protocol_oss.Receipt.Record.{dedup_key, bar}
use void_protocol_oss.Receipt.Processor.{EthText, IsHash, payment_id_of, tx_hash_of}

split_bar :
    (a b x y : Bytes)
    → All IsDigit a
    → All IsDigit b
    → a ++ (bar ∷ x) ≡ b ++ (bar ∷ y)
    → (a ≡ b) × (x ≡ y)
split_bar [] [] x y ha hb e = (refl, cc)
split_bar [] (d ∷ b) x y ha hb e = absurd (ground (arith, e))
split_bar (c ∷ a) [] x y ha hb e = absurd (ground (arith, e))
split_bar (c ∷ a) (d ∷ b) x y ha hb e =
    let t : a ++ (bar ∷ x) ≡ b ++ (bar ∷ y) = cc in
    let (p, q) = split_bar a b x y ha.1 hb.1 t in let h : c ≡ d = cc in (rw (h, p) refl, q)

-- Two settlement events share a key only if they have the same nonce and the same transaction, since
-- a decimal nonce holds no separator.
pub event_keys_distinct :
    (eth : EthText) (ev ev' : SettlementEvent)
    → IsHash ev.tx_hash
    → IsHash ev'.tx_hash
    → dedup_key (payment_id_of eth ev) (tx_hash_of eth ev)
      ≡ dedup_key (payment_id_of eth ev') (tx_hash_of eth ev')
    → (ev.tx_nonce ≡ ev'.tx_nonce) × (ev.tx_hash ≡ ev'.tx_hash)
unfolding dedup_key
event_keys_distinct eth ev ev' h h' e =
    let (p, q) =
      split_bar (decimal ev.tx_nonce) (decimal ev'.tx_nonce) (tx_hash_of eth ev)
        (tx_hash_of eth ev') (decimal-All ev.tx_nonce) (decimal-All ev'.tx_nonce) e in
    (decimal-injective ev.tx_nonce ev'.tx_nonce p, eth.hash_injective ev.tx_hash ev'.tx_hash h h' q)
