-- ===== src/Server/Settlements/Polled.antt =====
-- The events of a poll, where the node reports the logs of the escrow contract.
use void_protocol_oss.Base.{
  ℕ, ◌≡◌, refl, sym, ap, ◌∙◌, inl, inr, Option, none, some, List, [], ◌∷◌, ◌++◌, All, All-append,
  eq_of_some, ltb, leb, Bool-cases, Option-cases, if◌then◌else◌, arith,
}
use mathlib.Core.Path.{subst}
use void_protocol_oss.Chain.Watcher.{
  SettlementEvent, Log, EventFilterer, Watcher, with_time, stamped, Polled, collect, advance,
  poll_logs, poll_head, poll,
}
use void_protocol_oss.Receipt.Processor.Replay.{IsOnChain}
use void_protocol_oss.Server.Settlements.{IsSettlementLog, decode-IsOnChain}

-- Whatever range it is asked for, the node reports settlement logs or fails.
pub record IsEscrowNode (client : EventFilterer) : Type 0 where
  pub reports :
      (from to : ℕ) (ls : List Log) → client.filter_logs from to ≡ some ls → All IsSettlementLog ls

module _ (client : EventFilterer) (w : Watcher) where
  with_time-IsOnChain :
      (ev ev' : SettlementEvent) (t : Option ℕ)
      → with_time client w ev t ≡ some ev'
      → IsOnChain ev
      → IsOnChain ev'
  with_time-IsOnChain ev ev' none e c = absurd (ground (arith, e))
  with_time-IsOnChain ev ev' (some t) e c = subst IsOnChain (eq_of_some e) (record {
    sat_id_u32 = c.sat_id_u32;
    amount_u256 = c.amount_u256;
    tx_nonce_u256 = c.tx_nonce_u256;
    block_number_u64 = c.block_number_u64;
  })

  stamped-IsOnChain :
      (ev ev' : SettlementEvent) → stamped client w ev ≡ some ev' → IsOnChain ev → IsOnChain ev'
  stamped-IsOnChain ev ev' e c = elim (Bool-cases (leb w.next_block ev.block_number)) [
    | inl b ↦
        with_time-IsOnChain ev ev' (client.header_time ev.block_number)
          (sym (
              ap
                (λ x.
                  if x then with_time client w ev (client.header_time ev.block_number) else some ev)
                b)
            ∙ e)
          c
    | inr b ↦
        subst IsOnChain
          (eq_of_some (
            sym (
              ap
                (λ x.
                  if x then with_time client w ev (client.header_time ev.block_number) else some ev)
                b)
            ∙ e))
          c
  ]

  collect-IsOnChain :
      (ls : List Log) (evs : List SettlementEvent) (hi : ℕ)
      → All IsSettlementLog ls
      → All IsOnChain evs
      → All IsOnChain (collect client w ls evs hi).events
  unfolding collect
  collect-IsOnChain [] evs hi d c = c
  collect-IsOnChain (l ∷ ls) evs hi d c =
      let (ev, e, v) = decode-IsOnChain l d.0 in
      elim (Option-cases (stamped client w ev)) [
        | inl x ↦ rw (collect, e, x) c
        | inr (ev', x) ↦
            rw (collect, e, x)
              (collect-IsOnChain ls (evs ++ (ev' ∷ []))
                (if ltb hi ev'.block_number then ev'.block_number else hi) d.1
                (All-append IsOnChain evs (ev' ∷ []) c (stamped-IsOnChain ev ev' x v, tt)))
      ]

  advance-events : (p : Polled) → (advance client w p).1 ≡ p.events
  advance-events p = ground arith

  logs-IsOnChain :
      (ls : Option (List Log))
      → ((xs : List Log) → ls ≡ some xs → All IsSettlementLog xs)
      → All IsOnChain (poll_logs client w ls).1
  logs-IsOnChain none d = tt
  logs-IsOnChain (some []) d = tt
  logs-IsOnChain (some (l ∷ ls)) d =
      let p = collect client w (l ∷ ls) [] w.next_block in
      subst (All IsOnChain) (sym (advance-events p))
        (collect-IsOnChain (l ∷ ls) [] w.next_block (d (l ∷ ls) refl) tt)

  head-IsOnChain : (h : Option ℕ) → IsEscrowNode client → All IsOnChain (poll_head client w h).1
  head-IsOnChain none n = tt
  head-IsOnChain (some head) n = elim (Bool-cases (ltb head w.next_block)) [
    | inl b ↦ rw b tt
    | inr b ↦
        rw b (logs-IsOnChain (client.filter_logs w.next_block head) (n.reports w.next_block head))
  ]

  pub poll-IsOnChain : IsEscrowNode client → All IsOnChain (poll client w).1
  unfolding poll
  poll-IsOnChain n = head-IsOnChain client.block_number n
