-- ===== src/Receipt/Store/Pending.antt =====
-- The queue that the bouncer drains: PendingRecords, and what Append and MarkDispatched do to it.
use void_protocol_oss.Base.{
  ℕ, zero, suc, ◌+◌, ◌≡◌, refl, sym, inl, inr, true, some, none, Option, List, [], ◌∷◌, ◌++◌,
  length, length-append, take, Bool-cases, Option-cases, if◌then◌else◌, arith,
}
use mathlib.Core.List.{append-nil, append_assoc}
use void_protocol_oss.Base.Bytes.{Bytes, bytes_eq}
use void_protocol_oss.Base.Dict.{bytes_Eq, lookup}
use void_protocol_oss.Receipt.Record.{Record, status_pending}
use void_protocol_oss.Receipt.Store.{Store, pending_records, pending_loop}
use void_protocol_oss.Receipt.Store.Effect.{Rows}

abbrev pub enqueue : Option Record → List Record → List Record
enqueue none rest = rest
enqueue (some r) rest = if bytes_eq r.dispatch_status status_pending then r ∷ rest else rest

-- The rows in state PENDING, in the order in which their keys were first appended.
unfoldable pub waiting : Rows → List Bytes → List Record
waiting m [] = []
waiting m (k ∷ ks) = enqueue (lookup k m) (waiting m ks)

module _ (m : Rows) (limit : ℕ) where
  pending_loop-waiting :
      (ks : List Bytes) (out : List Record) (room : ℕ)
      → limit ≡ length out + suc room
      → pending_loop m limit ks out ≡ out ++ take (suc room) (waiting m ks)
  unfolding pending_loop waiting
  pending_loop-waiting [] out room h = sym (append-nil out)
  pending_loop-waiting (k ∷ ks) out room h = elim (Option-cases (lookup k m)) [
    | inl e ↦ ground (arith, pending_loop-waiting ks out room h)
    | inr (r, e) ↦ elim (Bool-cases (bytes_eq r.dispatch_status status_pending)) [
      | inr b ↦ ground (arith, pending_loop-waiting ks out room h)
      | inl b ↦
          pending_hit k ks out room h r e b
            (λ room'. pending_loop-waiting ks (out ++ (r ∷ [])) room')
    ]
  ]
    where
      pending_hit :
          (k : Bytes) (ks : List Bytes) (out : List Record) (room : ℕ)
          → limit ≡ length out + suc room
          → (r : Record) → lookup k m ≡ some r
          → bytes_eq r.dispatch_status status_pending ≡ true
          → ((room' : ℕ)
              → limit ≡ length (out ++ (r ∷ [])) + suc room'
              → pending_loop m limit ks (out ++ (r ∷ []))
                ≡ (out ++ (r ∷ [])) ++ take (suc room') (waiting m ks))
          → pending_loop m limit (k ∷ ks) out ≡ out ++ take (suc room) (waiting m (k ∷ ks))
      pending_hit k ks out zero h r e b ih = ground (arith, length-append out (r ∷ []))
      pending_hit k ks out (suc room) h r e b ih = ground (
        arith,
        length-append out (r ∷ []),
        ih room (omega (arith, length-append out (r ∷ []))),
        append_assoc out (r ∷ []) (take (suc room) (waiting m ks)),
      )

-- PendingRecords is the first `limit` rows of the queue.
pub pending_records-waiting :
    (limit : ℕ) (s : Store) → pending_records limit s ≡ take limit (waiting s.records s.order)
unfolding pending_records
pending_records-waiting zero s = refl
pending_records-waiting (suc n) s =
    ground (arith, pending_loop-waiting s.records (suc n) s.order [] n (omega arith))
