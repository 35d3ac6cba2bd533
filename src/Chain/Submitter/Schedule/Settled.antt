-- ===== src/Chain/Submitter/Schedule/Settled.antt =====
-- After the shutdown, once no submission is under way.
use mathlib.Core.List.{flatten, append_assoc, append-nil, Perm, Permᴰ, Perm-prop}
use mathlib.Core.List.{perm_append_comm}
use mathlib.Core.List.Perm
use mathlib.Core.Path.{subst}
use mathlib.Core.Logic.{∥∥₁_elim}
use void_protocol_oss.Base.{ℕ, ◌<◌, ◌≡◌, ap, ◌∙◌, true, List, [], ◌++◌}
use void_protocol_oss.Chain.Submitter.{Batch}
use void_protocol_oss.Chain.Submitter.Schedule.{System, init, Reach}
use void_protocol_oss.Chain.Submitter.Schedule.Sound.{reach-IsSound, nil_of_length}

swap_front {ℓ} : {A : Type ℓ} (x y z : List A) → Perm (x ++ (y ++ z)) (y ++ (x ++ z))
swap_front x y z =
    rw (← append_assoc x y z, ← append_assoc y x z) (Perm.append_right z (perm_append_comm x y))

flatten-permᴰ {ℓ} :
    {A : Type ℓ} {xs ys : List (List A)} → Permᴰ xs ys → Perm (flatten xs) (flatten ys)
unfolding flatten
flatten-permᴰ Permᴰ.nil = Perm.refl []
flatten-permᴰ (Permᴰ.cons {a = a} e p) = rw (← e) (Perm.append_left a (flatten-permᴰ p))
flatten-permᴰ (Permᴰ.swap {a = a} {b = b} {l = l} e f) = rw (← e, ← f) (swap_front a b (flatten l))
flatten-permᴰ (Permᴰ.trans p q) = Perm.trans (flatten-permᴰ p) (flatten-permᴰ q)

flatten-perm {ℓ} :
    {A : Type ℓ} {xs ys : List (List A)} → Perm xs ys → Perm (flatten xs) (flatten ys)
flatten-perm p = ∥∥₁_elim p Perm-prop flatten-permᴰ

-- Once the submitter is closed and no submission is under way, the intents handed to the client,
-- batch by batch, are exactly those that were accepted: none is lost and none is sent in two
-- batches, though batches may have finished out of order.
pub settled_after_stop :
    (m interval : ℕ) (t : System)
    → 0 < m
    → Reach (init m interval) t
    → t.sub.closed ≡ true
    → t.flight ≡ []
    → Perm (flatten t.landed) t.accepted
settled_after_stop m interval t pos r c f =
    let v = reach-IsSound m interval t pos r in
    let all : Perm t.landed t.taken =
      subst (λ (x : List Batch). Perm x t.taken)
        (ap (λ (y : List Batch). t.landed ++ y) f ∙ append-nil t.landed) v.flown in
    let acc : t.accepted ≡ flatten t.taken =
      v.conserved
      ∙ ap (λ (b : Batch). flatten t.taken ++ b) (nil_of_length t.sub.buf (v.shut c))
      ∙ append-nil (flatten t.taken) in
    rw acc (flatten-perm all)
