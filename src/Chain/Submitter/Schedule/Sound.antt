-- ===== src/Chain/Submitter/Schedule/Sound.antt =====
-- Every step keeps the system sound.
use mathlib.Core.List.{flatten, append_assoc, append-nil, perm_middle, Perm}
use mathlib.Core.List.Perm
use mathlib.Core.Path.{subst}
use void_protocol_oss.Base.{
  ℕ, ◌≤◌, ◌<◌, ◌≡◌, refl, sym, ap, ◌∙◌, inl, inr, true, false, not, Option, none, some, List, [],
  ◌∷◌, ◌++◌, length, length-append, All, All-append, ltb, ◌==◌, ◌||◌, Bool-cases, eq_of_some,
  if◌then◌else◌, arith,
}
use void_protocol_oss.Chain.Client.{SettlementIntent}
use void_protocol_oss.Chain.Submitter.{
  Batch, BufferedSubmitter, new_buffered_submitter, enqueue, flush, stop, on_timer, unless_empty,
}
use void_protocol_oss.Chain.Submitter.Schedule.{
  System, init, hand_out, accept, Step, enqueues, flushes, stops, fires, lands, Reach, here, next,
  IsSound,
}

flatten_snoc {ℓ} :
    {A : Type ℓ} (xs : List (List A)) (b : List A) → flatten (xs ++ (b ∷ [])) ≡ flatten xs ++ b
unfolding flatten
flatten_snoc [] b = append-nil b
flatten_snoc (x ∷ xs) b = ap (λ y. x ++ y) (flatten_snoc xs b) ∙ sym (append_assoc x (flatten xs) b)

flight_snoc :
    (landed flight taken : List Batch) (b : Batch)
    → Perm (landed ++ flight) taken
    → Perm (landed ++ (flight ++ (b ∷ []))) (taken ++ (b ∷ []))
flight_snoc landed flight taken b p =
    rw (← append_assoc landed flight (b ∷ [])) (Perm.append_right (b ∷ []) p)

flight_lands :
    (landed xs ys taken : List Batch) (b : Batch)
    → Perm (landed ++ (xs ++ (b ∷ ys))) taken
    → Perm ((landed ++ (b ∷ [])) ++ (xs ++ ys)) taken
flight_lands landed xs ys taken b p =
    rw (append_assoc landed (b ∷ []) (xs ++ ys))
      (Perm.trans (Perm.append_left landed (Perm.symm (perm_middle xs ys))) p)

-- What a critical section leaves and hands out, for a submitter of limit `m` that held `before`,
-- counting what was accepted in it.
pub record IsSection (m : ℕ) (before : Batch) (r : BufferedSubmitter × Option Batch) : Type 0 where
  pub limit : r.0.max_batch ≡ m
  pub bounded : length r.0.buf < m
  pub timed : r.0.timer ≡ not (length r.0.buf == 0)
  pub shut : r.0.closed ≡ true → length r.0.buf ≡ 0
  pub sized : (b : Batch) → r.1 ≡ some b → (1 ≤ length b) × (length b ≤ m)
  pub kept : r.1 ≡ none → before ≡ r.0.buf
  pub given : (b : Batch) → r.1 ≡ some b → before ≡ b ++ r.0.buf

hand_out-IsSound :
    (m : ℕ) (s : System) (acc before : Batch) (r : BufferedSubmitter × Option Batch)
    → IsSection m before r
    → acc ≡ flatten s.taken ++ before
    → All (λ b. (1 ≤ length b) × (length b ≤ m)) s.taken
    → Perm (s.landed ++ s.flight) s.taken
    → IsSound m (hand_out r (record s { accepted = acc }))
hand_out-IsSound m s acc before (sub, none) v e z p = record {
  limit = v.limit;
  bounded = v.bounded;
  timed = v.timed;
  shut = v.shut;
  sized = z;
  conserved = e ∙ ap (λ x. flatten s.taken ++ x) (v.kept refl);
  flown = p;
}
hand_out-IsSound m s acc before (sub, some b) v e z p = record {
  limit = v.limit;
  bounded = v.bounded;
  timed = v.timed;
  shut = v.shut;
  sized = All-append _ s.taken (b ∷ []) z (v.sized b refl, tt);
  conserved =
      e
      ∙ ap (λ x. flatten s.taken ++ x) (v.given b refl)
      ∙ sym (append_assoc (flatten s.taken) b sub.buf)
      ∙ ap (λ x. x ++ sub.buf) (sym (flatten_snoc s.taken b));
  flown = flight_snoc s.landed s.flight s.taken b p;
}

abbrev emptied : BufferedSubmitter → BufferedSubmitter
emptied sub = record sub { buf = []; timer = false }

taken-IsSection :
    (m : ℕ) (sub : BufferedSubmitter) (b : Batch)
    → sub.max_batch ≡ m
    → 1 ≤ length b
    → length b ≤ m
    → IsSection m b (emptied sub, some b)
taken-IsSection m sub b l lo hi = record {
  limit = l;
  bounded = omega arith;
  timed = refl;
  shut = λ _. refl;
  sized = λ c e. rw (← eq_of_some e) (lo, hi);
  kept = λ e. cc;
  given = λ c e. eq_of_some e ∙ sym (append-nil c);
}

unless_empty-IsSection :
    (m : ℕ) (sub : BufferedSubmitter) (b : Batch)
    → sub.max_batch ≡ m
    → 0 < m
    → length b ≤ m
    → IsSection m b (emptied sub, unless_empty b)
unless_empty-IsSection m sub [] l pos hi = record {
  limit = l;
  bounded = pos;
  timed = refl;
  shut = λ _. refl;
  sized = λ c e. cc;
  kept = λ e. refl;
  given = λ c e. cc;
}
unless_empty-IsSection m sub (i ∷ is) l pos hi = taken-IsSection m sub (i ∷ is) l (omega arith) hi

none-IsSection :
    (m : ℕ) (sub : BufferedSubmitter)
    → sub.max_batch ≡ m
    → length sub.buf < m
    → sub.timer ≡ not (length sub.buf == 0)
    → (sub.closed ≡ true → length sub.buf ≡ 0)
    → IsSection m sub.buf (sub, none)
none-IsSection m sub l b t c = record {
  limit = l;
  bounded = b;
  timed = t;
  shut = c;
  sized = λ d e. cc;
  kept = λ e. refl;
  given = λ d e. cc;
}

pub nil_of_length : (b : Batch) → length b ≡ 0 → b ≡ []
nil_of_length [] h = refl
nil_of_length (i ∷ is) h = absurd (omega arith)

module _ (m : ℕ) (s : System) (v : IsSound m s) where
  abbrev joined : SettlementIntent → BufferedSubmitter
  joined i = record s.sub {
    buf = s.sub.buf ++ (i ∷ []);
    timer = if length (s.sub.buf ++ (i ∷ [])) == 1 then true else s.sub.timer;
    closed = false;
  }

  joined-timed : (i : SettlementIntent) → (joined i).timer ≡ not (length (joined i).buf == 0)
  joined-timed i = ground (arith, v.timed, length-append s.sub.buf (i ∷ []))

  enqueue-IsSection :
      (i : SettlementIntent)
      → IsSection m (if s.sub.closed then s.sub.buf else s.sub.buf ++ (i ∷ [])) (enqueue i s.sub)
  unfolding enqueue
  enqueue-IsSection i = elim (Bool-cases s.sub.closed) [
    | inl c ↦ simp c (none-IsSection m s.sub v.limit v.bounded v.timed v.shut)
    | inr c ↦ elim (Bool-cases (ltb (length (s.sub.buf ++ (i ∷ []))) s.sub.max_batch)) [
      | inl b ↦
          simp (c, b)
            (none-IsSection m (joined i) v.limit (ground (arith, v.limit)) (joined-timed i)
              (λ d. cc))
      | inr b ↦
          simp (c, b)
            (taken-IsSection m (joined i) (s.sub.buf ++ (i ∷ [])) v.limit
              (omega (arith, length-append s.sub.buf (i ∷ [])))
              (omega (arith, length-append s.sub.buf (i ∷ []), v.bounded)))
    ]
  ]

  flush-IsSection : IsSection m s.sub.buf (flush s.sub)
  unfolding flush
  flush-IsSection = elim (Bool-cases s.sub.closed) [
    | inl c ↦ simp c (none-IsSection m s.sub v.limit v.bounded v.timed v.shut)
    | inr c ↦ simp c (
        unless_empty-IsSection m (record s.sub { closed = false }) s.sub.buf v.limit
          (omega (arith, v.bounded)) (omega (arith, v.bounded)))
  ]

  stop-IsSection : IsSection m s.sub.buf (stop s.sub)
  unfolding stop
  stop-IsSection =
      unless_empty-IsSection m (record s.sub { closed = true }) s.sub.buf v.limit
        (omega (arith, v.bounded)) (omega (arith, v.bounded))

  on_timer-IsSection : IsSection m s.sub.buf (on_timer s.sub)
  unfolding on_timer
  on_timer-IsSection = elim (Bool-cases (s.sub.closed || (length s.sub.buf == 0))) [
    | inl c ↦ rw c (none-IsSection m s.sub v.limit v.bounded v.timed v.shut)
    | inr c ↦
        rw c (taken-IsSection m s.sub s.sub.buf v.limit (ground arith) (omega (arith, v.bounded)))
  ]

  accept-conserved :
      (i : SettlementIntent)
      → (accept i s).accepted
        ≡ flatten s.taken ++ (if s.sub.closed then s.sub.buf else s.sub.buf ++ (i ∷ []))
  accept-conserved i = elim (Bool-cases s.sub.closed) [
    | inl c ↦ rw c v.conserved
    | inr c ↦
        rw c
          (ap (λ x. x ++ (i ∷ [])) v.conserved ∙ append_assoc (flatten s.taken) s.sub.buf (i ∷ []))
  ]

  accept_record :
      (i : SettlementIntent)
      → hand_out (enqueue i s.sub) (accept i s)
        ≡ hand_out (enqueue i s.sub) (record s { accepted = (accept i s).accepted })
  accept_record i = elim (Bool-cases s.sub.closed) [ inl c ↦ rw c refl | inr c ↦ rw c refl ]

  Step-IsSound : {s' : System} → Step s s' → IsSound m s'
  Step-IsSound (flushes e) = subst (IsSound m) (sym e) (
      hand_out-IsSound m s s.accepted s.sub.buf (flush s.sub) flush-IsSection v.conserved v.sized
        v.flown)
  Step-IsSound (stops e) = subst (IsSound m) (sym e) (
      hand_out-IsSound m s s.accepted s.sub.buf (stop s.sub) stop-IsSection v.conserved v.sized
        v.flown)
  Step-IsSound (fires e) = subst (IsSound m) (sym e) (
      hand_out-IsSound m s s.accepted s.sub.buf (on_timer s.sub) on_timer-IsSection v.conserved
        v.sized v.flown)
  Step-IsSound (enqueues i e) = subst (IsSound m) (sym (e ∙ accept_record i)) (
      hand_out-IsSound m s (accept i s).accepted _ (enqueue i s.sub) (enqueue-IsSection i)
        (accept-conserved i) v.sized v.flown)
  Step-IsSound (lands b xs ys f e) = subst (IsSound m) (sym e) (record {
    limit = v.limit;
    bounded = v.bounded;
    timed = v.timed;
    shut = v.shut;
    sized = v.sized;
    conserved = v.conserved;
    flown =
        flight_lands s.landed xs ys s.taken b (subst (λ x. Perm (s.landed ++ x) s.taken) f v.flown);
  })

Reach-IsSound : (m : ℕ) {s t : System} → IsSound m s → Reach s t → IsSound m t
Reach-IsSound m v here = v
Reach-IsSound m v (next {t = t} r st) = Step-IsSound m t (Reach-IsSound m v r) st

-- Whatever callers, timers, a flush, a shutdown and slow submissions do, in any order: fewer
-- intents than the limit are buffered, the timer is kept exactly while something is buffered, a
-- closed submitter buffers nothing, each batch that is taken holds between one intent and the
-- limit, and the accepted intents are those of the taken batches, in order, and then those
-- buffered. The batches under way and those done are the batches taken.
pub reach-IsSound : (m interval : ℕ) (t : System) → 0 < m → Reach (init m interval) t → IsSound m t
unfolding new_buffered_submitter flatten
reach-IsSound m interval t pos r =
    Reach-IsSound m
      (record {
        limit = ground arith;
        bounded = pos;
        timed = refl;
        shut = λ _. refl;
        sized = tt;
        conserved = refl;
        flown = Perm.refl [];
      })
      r
