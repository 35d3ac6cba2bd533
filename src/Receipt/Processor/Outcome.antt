-- ===== src/Receipt/Processor/Outcome.antt =====
-- What one call of Handle does.
use Prim.Native.Nat.{bit_and}
use void_protocol_oss.Base.{
  ℕ, ◌+◌, ◌%◌, ◌^◌, ◌<◌, ◌≡◌, refl, ◌∙◌, inl, inr, none, length, is_some, Bool-cases, if◌then◌else◌,
  arith,
}
use void_protocol_oss.Base.Bits.{bit_and_mask}
use void_protocol_oss.Base.Bytes.{Bytes}
use void_protocol_oss.Base.Dict.{bytes_Eq, lookup}
use void_protocol_oss.Chain.Watcher.{SettlementEvent}
use void_protocol_oss.Wire.Crc.{Crc32}
use void_protocol_oss.Receipt.Record.{Record, dedup_key}
use void_protocol_oss.Receipt.Json.{Json}
use void_protocol_oss.Wire.Signature.{Ed25519}
use void_protocol_oss.Receipt.Builder.Layout.{packet_c, build_frame}
use void_protocol_oss.Receipt.Store.{WriteIo, append, has}
use void_protocol_oss.Receipt.Processor.{
  EthText, Processor, inputs_of, append_error, payment_id_of, tx_hash_of, record_of, claim, handle,
}

next_seq : (n : ℕ) → n < 2 ^ 14 → bit_and ((n + 1) % 2 ^ 16) 0x3FFF ≡ (n + 1) % 2 ^ 14
next_seq n h = bit_and_mask 14 ((n + 1) % 2 ^ 16) 0x3FFF refl ∙ omega arith

module _ (eth : EthText) (ed : Ed25519) (crc : Crc32) (json : Json) where
  abbrev pub key_of_event : SettlementEvent → Bytes
  key_of_event ev = dedup_key (payment_id_of eth ev) (tx_hash_of eth ev)

  -- The receipt for an event: the row with the frame of the layout, signed with the seed.
  abbrev pub receipt : SettlementEvent → Processor → Record
  receipt ev p = record_of eth ev (packet_c ed crc (inputs_of ev p.seq_count p))

  pub handle_outcome :
      (io : WriteIo) (ev : SettlementEvent) (p : Processor)
      → length p.seed ≡ 32
      → p.seq_count < 2 ^ 14
      → handle eth ed crc json io ev p ≡ (
          if is_some (lookup (key_of_event ev) p.store.records) then (p, none) else (
            record p {
              store = (append json io (receipt ev p) p.store).0;
              seq_count = (p.seq_count + 1) % 2 ^ 14;
            },
            append_error (append json io (receipt ev p) p.store).1,
          ))
  unfolding handle claim has
  handle_outcome io ev p hs hq =
      elim (Bool-cases (is_some (lookup (key_of_event ev) p.store.records))) [
        | inl e ↦ rw e refl
        | inr e ↦
            rw (e, next_seq p.seq_count hq, build_frame ed crc (inputs_of ev p.seq_count p), hs)
              refl
      ]
