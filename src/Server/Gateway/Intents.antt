-- ===== src/Server/Gateway/Intents.antt =====
-- The payments of a running gateway, from its requests into the batches for the contract.
use mathlib.Core.List.{append_assoc, append-nil, flatten}
use void_protocol_oss.Base.{
  ◌≡◌, refl, sym, ap, ◌∙◌, inl, inr, true, false, Option, none, some, List, [], ◌∷◌, ◌++◌, length,
  is_some, ◌==◌, Bool-cases,
}
use mathlib.Core.Path.{subst}
use void_protocol_oss.Base.Bytes.{Bytes}
use void_protocol_oss.Wire.Crc.{Crc32}
use void_protocol_oss.Wire.Signature.{Ed25519}
use void_protocol_oss.Protocol.Kaitai.{Kaitai}
use void_protocol_oss.Registry.{Registry}
use void_protocol_oss.Chain.Client.{SettlementIntent}
use void_protocol_oss.Chain.Submitter.{
  Batch, BufferedSubmitter, on_timer, stop, steal_locked, unless_empty,
}
use void_protocol_oss.Receipt.Json.{Json}
use void_protocol_oss.Receipt.Processor.{EthText}
use void_protocol_oss.Ingest.{ingest_packet}
use void_protocol_oss.Server.Payments.{
  hand_over, batches_of, intents_of, IsTaken, hand_over-IsTaken, flatten-batches_of,
}
use void_protocol_oss.Server.Gateway.{
  post_ingest, get_pending, post_ack, Gateway, Input, requests, timer_fires, polls, handles, Output,
  on_submitter, cleanup, ingest_answered, route, step, serve_all,
}

-- The batches that the steps have given out.
abbrev pub given_out : List Output → List Batch
given_out [] = []
given_out (o ∷ os) = batches_of o.batch ++ given_out os

on_timer-IsTaken : (s : BufferedSubmitter) → s.closed ≡ false → IsTaken s none (on_timer s)
unfolding on_timer steal_locked flatten
on_timer-IsTaken s c = elim (Bool-cases (length s.buf == 0)) [
  | inl b ↦ rw (c, b) (record { open_still = refl; taken = sym (append-nil s.buf) })
  | inr b ↦ rw (c, b) (record { open_still = refl; taken = ap (λ x. x ++ []) (append-nil s.buf) })
]

flatten-append : (xs ys : List Batch) → flatten (xs ++ ys) ≡ flatten xs ++ flatten ys
unfolding flatten
flatten-append [] ys = refl
flatten-append (x ∷ xs) ys =
    ap (λ z. x ++ z) (flatten-append xs ys) ∙ sym (append_assoc x (flatten xs) (flatten ys))

batches_of-unless_empty : (b : Batch) → flatten (batches_of (unless_empty b)) ≡ b
unfolding flatten
batches_of-unless_empty [] = refl
batches_of-unless_empty (i ∷ is) = append-nil (i ∷ is)

module _ (eth : EthText) (ed : Ed25519) (crc : Crc32) (json : Json) (k : Kaitai)
    (hex_to_address : Bytes → Bytes) where
  -- The intent of a frame for a registry, and those of the frames among the inputs.
  abbrev pub intent_of_input : Registry → Input → Option SettlementIntent
  intent_of_input db (requests (post_ingest raw)) =
      (ingest_packet k ed crc hex_to_address db true raw).1
  intent_of_input db (requests get_pending) = none
  intent_of_input db (requests (post_ack io req)) = none
  intent_of_input db timer_fires = none
  intent_of_input db (polls client) = none
  intent_of_input db (handles io) = none

  abbrev pub intents_of_inputs : Registry → List Input → Batch
  intents_of_inputs db [] = []
  intents_of_inputs db (i ∷ is) = intents_of (intent_of_input db i) ++ intents_of_inputs db is

  -- One step of a gateway with an open submitter.
  record IsStepOf (i : Input) (g : Gateway) (s : BufferedSubmitter) (r : Gateway × Output)
      : Type 0 where
    next : BufferedSubmitter
    submitter : r.0.submitter ≡ some next
    same_registry : r.0.registry ≡ g.registry
    taken : IsTaken s (intent_of_input g.registry i) (next, r.1.batch)

  untouched : (s : BufferedSubmitter) → s.closed ≡ false → IsTaken s none (s, none)
  unfolding flatten
  untouched s c = record { open_still = c; taken = sym (append-nil s.buf) }

  step-IsStepOf :
      (i : Input) (g : Gateway) (s : BufferedSubmitter)
      → g.submitter ≡ some s
      → s.closed ≡ false
      → IsStepOf i g s (step eth ed crc json k hex_to_address i g)
  unfolding step route
  step-IsStepOf (requests (post_ingest raw)) g s e c =
      let wired : is_some g.submitter ≡ true = ap is_some e in
      let o = ingest_packet k ed crc hex_to_address g.registry true raw in
      let r = hand_over o.1 s in
      let t = hand_over-IsTaken o.1 s c in
      record {
        next = r.0;
        submitter =
            ap
              (λ x.
                (ingest_answered eth ed crc json k hex_to_address g
                  (ingest_packet k ed crc hex_to_address g.registry x raw)).0.submitter)
              wired
            ∙ ap (λ x. (on_submitter (hand_over o.1) x).0) e;
        same_registry = refl;
        taken =
            subst (λ x. IsTaken s o.1 (r.0, x))
              (sym (
                ap
                  (λ x.
                    (on_submitter
                      (hand_over (ingest_packet k ed crc hex_to_address g.registry x raw).1)
                      g.submitter).1)
                  wired
                ∙ ap (λ x. (on_submitter (hand_over o.1) x).1) e))
              t;
      }
  step-IsStepOf (requests get_pending) g s e c = record {
    next = s;
    submitter = e;
    same_registry = refl;
    taken = untouched s c;
  }
  step-IsStepOf (requests (post_ack io req)) g s e c = record {
    next = s;
    submitter = e;
    same_registry = refl;
    taken = untouched s c;
  }
  step-IsStepOf timer_fires g s e c =
      let r = on_timer s in
      record {
        next = r.0;
        submitter = ap (λ x. (on_submitter on_timer x).0) e;
        same_registry = refl;
        taken =
            subst (λ x. IsTaken s none (r.0, x)) (sym (ap (λ x. (on_submitter on_timer x).1) e))
              (on_timer-IsTaken s c);
      }
  step-IsStepOf (polls client) g s e c = record {
    next = s;
    submitter = e;
    same_registry = refl;
    taken = untouched s c;
  }
  step-IsStepOf (handles io) g s e c = record {
    next = s;
    submitter = e;
    same_registry = refl;
    taken = untouched s c;
  }

  serve_all-intents :
      (is : List Input) (g : Gateway) (s : BufferedSubmitter)
      → g.submitter ≡ some s
      → s.closed ≡ false
      → (s' : BufferedSubmitter) × ((serve_all eth ed crc json k hex_to_address is g).0.submitter
          ≡ some s')
        × (flatten (given_out (serve_all eth ed crc json k hex_to_address is g).1) ++ s'.buf
            ≡ s.buf ++ intents_of_inputs g.registry is)
  unfolding serve_all flatten
  serve_all-intents [] g s e c = (s, e, sym (append-nil s.buf))
  serve_all-intents (i ∷ is) g s e c =
      let first = step eth ed crc json k hex_to_address i g in
      let st = step-IsStepOf i g s e c in
      let (s', e', rest) = serve_all-intents is first.0 st.next st.submitter st.taken.open_still in
      let o = intents_of (intent_of_input g.registry i) in
      let outs = (serve_all eth ed crc json k hex_to_address is first.0).1 in
      (
        s',
        e',
        ap (λ x. x ++ s'.buf) (flatten-batches_of first.1.batch (given_out outs))
            ∙ append_assoc (flatten (batches_of first.1.batch)) (flatten (given_out outs)) s'.buf
            ∙ ap (λ x. flatten (batches_of first.1.batch) ++ x) rest
            ∙ sym (
                append_assoc (flatten (batches_of first.1.batch)) st.next.buf
                  (intents_of_inputs first.0.registry is))
            ∙ ap (λ x. x ++ intents_of_inputs first.0.registry is) st.taken.taken
            ∙ append_assoc s.buf o (intents_of_inputs first.0.registry is)
            ∙ ap (λ x. s.buf ++ (o ++ intents_of_inputs x is)) st.same_registry,
      )

  -- However requests, firings of the timer, polls and handled settlements interleave, the batches
  -- that an open submitter gives out in the steps, and at last in the clean-up, hold what it had
  -- buffered and the intents of the frames, each once and in their order.
  pub gateway_submits_each_once :
      (is : List Input) (g : Gateway) (s : BufferedSubmitter)
      → g.submitter ≡ some s
      → s.closed ≡ false
      → flatten (
          given_out (serve_all eth ed crc json k hex_to_address is g).1
          ++ batches_of (cleanup (serve_all eth ed crc json k hex_to_address is g).0).1)
        ≡ s.buf ++ intents_of_inputs g.registry is
  unfolding cleanup stop steal_locked
  gateway_submits_each_once is g s e c =
      let (s', e', all) = serve_all-intents is g s e c in
      let outs = given_out (serve_all eth ed crc json k hex_to_address is g).1 in
      ap (λ x. flatten (outs ++ batches_of (on_submitter stop x).1)) e'
      ∙ flatten-append outs (batches_of (unless_empty s'.buf))
      ∙ ap (λ x. flatten outs ++ x) (batches_of-unless_empty s'.buf)
      ∙ all
