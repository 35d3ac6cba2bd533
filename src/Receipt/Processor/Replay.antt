-- ===== src/Receipt/Processor/Replay.antt =====
-- Handle across restarts of the gateway.
use mathlib.Core.Path.{subst}
use void_protocol_oss.Base.{
  ℕ, ◌+◌, ◌%◌, ◌^◌, ◌≤◌, ◌<◌, ◌≡◌, refl, sym, ap, ◌∙◌, inl, inr, true, false, Option, none, List,
  [], ◌∷◌, length, All, is_some, Bool-cases, Option-cases, arith,
}
use void_protocol_oss.Base.Bytes.{Bytes}
use void_protocol_oss.Base.Dict.{bytes_Eq, lookup, lookup-insert_self}
use void_protocol_oss.Base.Text.{decimal, IsDigit, decimal-All, decimal-length, hex-All, length-hex}
use void_protocol_oss.Chain.Watcher.{SettlementEvent}
use void_protocol_oss.Wire.Crc.{Crc32}
use void_protocol_oss.Receipt.Record.{Record, IsStorable, IsAscii, key_of, default_status}
use void_protocol_oss.Receipt.Json.{Json}
use void_protocol_oss.Wire.Signature.{Ed25519}
use void_protocol_oss.Receipt.Builder.Layout.{packet_c}
use void_protocol_oss.Receipt.Builder.Readback.{packet_c-All, length-packet_c}
use void_protocol_oss.Receipt.Store.{Store, WriteIo, append, has, write_line_locked, write_out, ok}
use void_protocol_oss.Receipt.Store.Effect.{append-Effect}
use void_protocol_oss.Receipt.Store.Recovery.{Covers, IsDurable, Effect-IsDurable}
use void_protocol_oss.Receipt.Store.History.{
  Event, IsWhole, fresh, run, run-IsDurable, durable_after,
}
use void_protocol_oss.Receipt.Processor.{
  EthText, Processor, HandleError, inputs_of, append_error, claim, handle,
}
use void_protocol_oss.Receipt.Processor.Outcome.{key_of_event, receipt, handle_outcome}

-- The event's fields fit their types on the chain.
pub record IsOnChain (ev : SettlementEvent) : Type 0 where
  pub sat_id_u32 : ev.sat_id < 2 ^ 32
  pub amount_u256 : ev.amount < 2 ^ 256
  pub tx_nonce_u256 : ev.tx_nonce < 2 ^ 256
  pub block_number_u64 : ev.block_number < 2 ^ 64

digits-IsAscii : (bs : Bytes) → All IsDigit bs → IsAscii bs
digits-IsAscii [] h = tt
digits-IsAscii (b ∷ bs) h = (omega arith, digits-IsAscii bs h.1)

decimal-IsAscii : (n : ℕ) → IsAscii (decimal n)
decimal-IsAscii n = digits-IsAscii (decimal n) (decimal-All n)

u256-digits : (n : ℕ) → n < 2 ^ 256 → length (decimal n) ≤ 78
u256-digits n h = decimal-length 77 n (omega arith)

module _ (eth : EthText) (ed : Ed25519) (crc : Crc32) (json : Json) where
  pub receipt-IsStorable :
      (ev : SettlementEvent) (p : Processor)
      → IsOnChain ev
      → IsStorable (receipt eth ed crc json ev p)
  receipt-IsStorable ev p v =
      let i = inputs_of ev p.seq_count p in
      record {
        payment_id_ascii = decimal-IsAscii ev.tx_nonce;
        tx_hash_ascii = eth.hash_ascii ev.tx_hash;
        amount_ascii = decimal-IsAscii ev.amount;
        wallet_ascii = eth.address_ascii ev.wallet;
        packet_c_hex_ascii = hex-All (packet_c ed crc i) (packet_c-All ed crc i (omega arith));
        status_ascii = tt;
        sat_id_u32 = v.sat_id_u32;
        asset_id_u16 = omega arith;
        block_number_u64 = v.block_number_u64;
        ts_ms_i64 = omega arith;
        text_fits = omega (
          arith,
          u256-digits ev.tx_nonce v.tx_nonce_u256,
          u256-digits ev.amount v.amount_u256,
          eth.hash_size ev.tx_hash,
          eth.address_size ev.wallet,
          length-hex (packet_c ed crc i),
          length-packet_c ed crc i,
        );
        status_fits = omega arith;
      }

  -- An append whose error Handle passes over leaves the key in the store.
  pub append_keeps :
      (io : WriteIo) (r : Record) (s : Store)
      → append_error (append json io r s).1 ≡ none
      → is_some (lookup (key_of r) (append json io r s).0.records) ≡ true
  unfolding append write_line_locked write_out
  append_keeps io r s h = ground (arith, lookup-insert_self (key_of r) (default_status r) s.records)

  abbrev Kept : SettlementEvent → Store → Type 0
  Kept ev s = is_some (lookup (key_of_event eth ed crc json ev) s.records) ≡ true

  Covers-Kept :
      (ev : SettlementEvent) (s s' : Store) → Covers s.records s'.records → Kept ev s → Kept ev s'
  Covers-Kept ev s s' covers h =
      elim (Option-cases (lookup (key_of_event eth ed crc json ev) s.records)) [
        | inl e ↦ absurd (cc)
        | inr (r, e) ↦ let (r', e', _) = covers (key_of_event eth ed crc json ev) r e in rw e' refl
      ]

  pub replay_noop :
      (io : WriteIo) (ev : SettlementEvent) (q : Processor)
      → is_some (lookup (key_of_event eth ed crc json ev) q.store.records) ≡ true
      → handle eth ed crc json io ev q ≡ (q, none)
  unfolding handle claim has
  replay_noop io ev q h = rw h refl

  pub handle_fresh :
      (io : WriteIo) (ev : SettlementEvent) (p : Processor)
      → length p.seed ≡ 32
      → p.seq_count < 2 ^ 14
      → is_some (lookup (key_of_event eth ed crc json ev) p.store.records) ≡ false
      → handle eth ed crc json io ev p ≡ (
        record p {
          store = (append json io (receipt eth ed crc json ev p) p.store).0;
          seq_count = (p.seq_count + 1) % 2 ^ 14;
        },
        append_error (append json io (receipt eth ed crc json ev p) p.store).1,
      )
  handle_fresh io ev p hs hq x = handle_outcome eth ed crc json io ev p hs hq ∙ rw x refl

  handled :
      (io : WriteIo) (ev : SettlementEvent) (p p' : Processor)
      → io.stops_after ≡ none
      → IsOnChain ev
      → length p.seed ≡ 32
      → p.seq_count < 2 ^ 14
      → IsDurable json p.store
      → handle eth ed crc json io ev p ≡ (p', none)
      → IsDurable json p'.store
        × (is_some (lookup (key_of_event eth ed crc json ev) p'.store.records) ≡ true)
  handled io ev p p' w c hs hq v e =
      elim (Bool-cases (is_some (lookup (key_of_event eth ed crc json ev) p.store.records))) [
        | inl x ↦
            let same : p ≡ p' =
              ap (λ (y : Processor × Option HandleError). y.0) (sym (replay_noop io ev p x) ∙ e) in
            (
              subst (λ (q : Processor). IsDurable json q.store) same v,
              subst (λ (q : Processor). Kept ev q.store) same x,
            )
        | inr x ↦
            let r = receipt eth ed crc json ev p in
            let o = sym (handle_fresh io ev p hs hq x) ∙ e in
            let left : (append json io r p.store).0 ≡ p'.store =
              ap (λ (y : Processor × Option HandleError). y.0.store) o in
            let none_left : append_error (append json io r p.store).1 ≡ none =
              ap (λ (y : Processor × Option HandleError). y.1) o in
            (
              subst (IsDurable json) left (
                  Effect-IsDurable json v
                    (append-Effect json io r p.store w (receipt-IsStorable ev p c))),
              subst (Kept ev) left (append_keeps io r p.store none_left),
            )
      ]

  -- Take a history of whole writes of rows that fit their types and the file's lines, loads whose
  -- system calls succeed and syncs that may fail, an event whose fields fit their types on the
  -- chain, a seed of 32 bytes and a sequence count below 2 ^ 14. Once a call of Handle on the event
  -- over that store, whose write was whole, has returned nil, every later such history runs through,
  -- and a replay of the event, by any processor over the store that it leaves, is a no-op: the
  -- processor and its store stay as they are and nil is returned.
  pub replay_after_restart :
      (before after : List Event) (io : WriteIo) (ev : SettlementEvent) (p p' : Processor)
      → All IsWhole before
      → All IsWhole after
      → io.stops_after ≡ none
      → IsOnChain ev
      → length p.seed ≡ 32
      → p.seq_count < 2 ^ 14
      → run json before fresh ≡ ok p.store
      → handle eth ed crc json io ev p ≡ (p', none)
      → (s : Store) × (run json after p'.store ≡ ok s)
        × ((io' : WriteIo) (q : Processor)
            → q.store ≡ s
            → handle eth ed crc json io' ev q ≡ (q, none))
  replay_after_restart before after io ev p p' wb wa w c hs hq eb e =
      let (v, k) = handled io ev p p' w c hs hq (durable_after json before p.store wb eb) e in
      let (s, es, _, covers) = run-IsDurable json after p'.store wa v in
      (
        s,
        es,
        λ io' q h.
            replay_noop io' ev q (subst (Kept ev) (sym h) (Covers-Kept ev p'.store s covers k)),
      )
