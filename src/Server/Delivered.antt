-- ===== src/Server/Delivered.antt =====
-- The watcher and the processor together, over nodes, a disk and a contract that work.
use void_protocol_oss.Base.{
  ℕ, zero, suc, ◌+◌, ◌-◌, ◌≡◌, refl, sym, ap, ◌∙◌, inl, inr, Option, none, some, List, [], ◌∷◌,
  ◌++◌, All, All-append, eq_of_some, leb, Bool-cases, arith,
}
use mathlib.Core.Path.{subst}
use void_protocol_oss.Wire.Crc.{Crc32}
use void_protocol_oss.Wire.Signature.{Ed25519}
use void_protocol_oss.Chain.Watcher.{SettlementEvent, Log, Watcher, decode_settlement_created}
use void_protocol_oss.Chain.Watcher.Run.{Round, going, handle_all, run}
use void_protocol_oss.Chain.Watcher.Run.Blocks.{
  logs_in, logs_in-append, IsChain, timed_event, cons_event, events_of,
}
use void_protocol_oss.Chain.Watcher.Run.Live.{
  Decodes, AreAnswering, AreAnswering-AreHonest, run_never_stops,
}
use void_protocol_oss.Receipt.Json.{Json}
use void_protocol_oss.Receipt.Store.{Store, WriteIo}
use void_protocol_oss.Receipt.Store.Lands.{Marshals}
use void_protocol_oss.Receipt.Processor.{EthText, Processor, HandleError}
use void_protocol_oss.Receipt.Processor.Replay.{IsOnChain}
use void_protocol_oss.Server.{Receiving, received, on_settlement}
use void_protocol_oss.Server.Recorded.{IsRecorded, run-IsRecorded}
use void_protocol_oss.Server.Settlements.{
  IsSettlementLog, decode-IsOnChain, WritesAll, IsReceiving, handle_lands,
}

All-append_inv : (P : Log → Type 0) (xs ys : List Log) → All P (xs ++ ys) → All P xs
All-append_inv P [] ys h = tt
All-append_inv P (x ∷ xs) ys h = (h.0, All-append_inv P xs ys h.1)

pub logs_in-All_each :
    (P : Log → Type 0) (chain : ℕ → List Log) (from n : ℕ)
    → ((b : ℕ) → All P (chain b))
    → All P (logs_in chain from n)
logs_in-All_each P chain from zero d = tt
logs_in-All_each P chain from (suc n) d =
    All-append P (chain from) (logs_in chain (from + 1) n) (d from)
      (logs_in-All_each P chain (from + 1) n d)

settle-Decodes : (ls : List Log) → All IsSettlementLog ls → All Decodes ls
settle-Decodes [] d = tt
settle-Decodes (l ∷ ls) d =
    let (ev, e, c) = decode-IsOnChain l d.0 in ((ev, e), settle-Decodes ls d.1)

-- A head behind which no log is left is covered by the blocks that have been read.
reaches_head :
    (P : Log → Type 0) (chain : ℕ → List Log) (from n next head : ℕ)
    → from + n ≡ next
    → logs_in chain next (head + 1 - next) ≡ []
    → All P (logs_in chain from n)
    → All P (logs_in chain from (head + 1 - from))
reaches_head P chain from n next head e v all = elim (Bool-cases (leb (head + 1 - from) n)) [
  | inl c ↦
      let k = n - (head + 1 - from) in
      let whole : n ≡ (head + 1 - from) + k = ground (arith, c) in
      All-append_inv P (logs_in chain from (head + 1 - from))
        (logs_in chain (from + (head + 1 - from)) k)
        (subst (All P)
          (ap (logs_in chain from) whole ∙ logs_in-append chain from (head + 1 - from) k) all)
  | inr c ↦
      let whole : n + (head + 1 - next) ≡ head + 1 - from = ground (arith, c, e) in
      let rest : logs_in chain (from + n) (head + 1 - next) ≡ [] =
        ap (λ x. logs_in chain x (head + 1 - next)) e ∙ v in
      subst (All P)
        (sym (logs_in-append chain from n (head + 1 - next)) ∙ ap (logs_in chain from) whole)
        (All-append P (logs_in chain from n) (logs_in chain (from + n) (head + 1 - next)) all
          (subst (All P) (sym rest) tt))
]

reaches_heads :
    (P : Log → Type 0) (chain : ℕ → List Log) (from n next : ℕ) (heads : List ℕ)
    → from + n ≡ next
    → All (λ (h : ℕ). logs_in chain next (h + 1 - next) ≡ []) heads
    → All P (logs_in chain from n)
    → All (λ (h : ℕ). All P (logs_in chain from (h + 1 - from))) heads
reaches_heads P chain from n next [] e v all = tt
reaches_heads P chain from n next (h ∷ hs) e v all =
    (reaches_head P chain from n next h e v.0 all, reaches_heads P chain from n next hs e v.1 all)

-- The contract's logs are all of the settlement event.
pub record IsEscrowChain (chain : ℕ → List Log) : Type 0 where
  pub placed : IsChain chain
  pub settles : (b : ℕ) → All IsSettlementLog (chain b)

module _ (eth : EthText) (ed : Ed25519) (crc : Crc32) (json : Json) (io : ℕ → WriteIo) where
  -- The store has the receipt of the settlement that a log reports.
  abbrev pub IsSettled : Store → Log → Type 0
  IsSettled s l =
      (ev : SettlementEvent) × (decode_settlement_created l ≡ some ev)
      × IsRecorded eth ed crc json io s ev

  record AreRead (time : ℕ → ℕ) (ls : List Log) (evs : List SettlementEvent) : Type 0 where
    is_read : events_of time ls ≡ some evs
    on_chain : All IsOnChain evs
    settled : (s : Store) → All (IsRecorded eth ed crc json io s) evs → All (IsSettled s) ls

  logs-AreRead :
      (time : ℕ → ℕ) (ls : List Log)
      → All IsSettlementLog ls
      → (evs : List SettlementEvent) × AreRead time ls evs
  logs-AreRead time [] d = ([], record { is_read = refl; on_chain = tt; settled = λ s r. tt })
  logs-AreRead time (l ∷ ls) d =
      let (ev, e, c) = decode-IsOnChain l d.0 in
      let (evs, v) = logs-AreRead time ls d.1 in
      let ev' : SettlementEvent = record ev { block_time_sec = time ev.block_number } in
      (
        ev' ∷ evs,
        record {
          is_read =
              ap (λ x. cons_event (timed_event time x) (events_of time ls)) e
              ∙ ap (cons_event (some ev')) v.is_read;
          on_chain = (
            record {
              sat_id_u32 = c.sat_id_u32;
              amount_u256 = c.amount_u256;
              tx_nonce_u256 = c.tx_nonce_u256;
              block_number_u64 = c.block_number_u64;
            },
            v.on_chain,
          );
          settled = λ s r. ((ev, e, r.0), v.settled s r.1);
        },
      )

  -- Where no call has failed, the logs up to each head are settled.
  IsSettled-heads :
      (chain : ℕ → List Log) (time : ℕ → ℕ) (rounds : List Round) (heads : List ℕ) (w w' : Watcher)
      (r r' : Receiving)
      → IsEscrowChain chain
      → AreAnswering chain time rounds heads
      → IsReceiving r.processor
      → run (on_settlement eth ed crc json io) rounds w r ≡ (w', r', going)
      → r'.errors ≡ []
      → All
          (λ (h : ℕ).
            All (IsSettled r'.processor.store) (logs_in chain w.next_block (h + 1 - w.next_block)))
          heads
  IsSettled-heads chain time rounds heads w w' r r' c a v e quiet =
      let (h, recorded) =
        run-IsRecorded eth ed crc json io chain time rounds heads w w' r r' c.placed
          (AreAnswering-AreHonest chain time rounds heads a)
          (record { seeded = v.seeded; counted = v.counted }) e quiet in
      let (evs, d) =
        logs-AreRead time (logs_in chain w.next_block h.blocks)
          (logs_in-All_each IsSettlementLog chain w.next_block h.blocks c.settles) in
      reaches_heads (IsSettled r'.processor.store) chain w.next_block h.blocks w'.next_block heads
        h.moved h.nothing_left
        (d.settled r'.processor.store (
          subst (All (IsRecorded eth ed crc json io r'.processor.store))
            (eq_of_some (sym h.is_read ∙ d.is_read)) recorded))

  module _ (marshals : Marshals json) (writes : WritesAll io) where
    handle_all_lands :
        (evs : List SettlementEvent) (r : Receiving)
        → All IsOnChain evs
        → IsReceiving r.processor
        → (handle_all (on_settlement eth ed crc json io) r evs).errors ≡ r.errors
    unfolding on_settlement
    handle_all_lands [] r c v = refl
    handle_all_lands (ev ∷ evs) r c v =
        let (p', e, v') =
          handle_lands json marshals eth ed crc (io r.calls) ev r.processor (writes.each r.calls)
            c.0 v in
        ap
          (λ (o : Processor × Option HandleError).
            (handle_all (on_settlement eth ed crc json io) (received eth ed crc json io r o)
              evs).errors)
          e
        ∙ handle_all_lands evs (received eth ed crc json io r (p', none)) c.1 v'

    -- Over nodes that answer every call from a chain of the escrow contract, a disk that takes
    -- every write and an encoder that takes every row, from a processor with a seed of 32 bytes, a
    -- sequence count of 14 bits and an open store, the watcher's loop with the processor as its
    -- handler goes on, logs no error, and leaves a receipt in the store for each settlement from
    -- its cursor to each head that it has seen.
    pub settlements_get_receipts :
        (chain : ℕ → List Log) (time : ℕ → ℕ) (rounds : List Round) (heads : List ℕ) (w : Watcher)
        (r : Receiving)
        → IsEscrowChain chain
        → AreAnswering chain time rounds heads
        → IsReceiving r.processor
        → r.errors ≡ []
        → (w' : Watcher) × (r' : Receiving) × (run (on_settlement eth ed crc json io) rounds w r
            ≡ (w', r', going))
          × (r'.errors ≡ [])
          × All
              (λ (h : ℕ).
                All
                  (IsSettled r'.processor.store)
                  (logs_in chain w.next_block (h + 1 - w.next_block)))
              heads
    settlements_get_receipts chain time rounds heads w r c a v e =
        let decodes : (b : ℕ) → All Decodes (chain b) =
          λ b. settle-Decodes (chain b) (c.settles b) in
        let (w', r', going_on, h) =
          run_never_stops chain time (on_settlement eth ed crc json io) rounds heads w r c.placed
            decodes a in
        let (evs, d) =
          logs-AreRead time (logs_in chain w.next_block h.blocks)
            (logs_in-All_each IsSettlementLog chain w.next_block h.blocks c.settles) in
        let same : evs ≡ h.events = eq_of_some (sym d.is_read ∙ h.is_read) in
        let quiet : r'.errors ≡ [] =
          ap (λ x. x.errors) (sym h.handled)
          ∙ handle_all_lands h.events r (subst (All IsOnChain) same d.on_chain) v
          ∙ e in
        (
          w',
          r',
          going_on,
          quiet,
          IsSettled-heads chain time rounds heads w w' r r' c a v going_on quiet,
        )
