-- ===== src/Receipt/Store/Lines.antt =====
-- How the file splits into lines, and how the load goes over them.
use void_protocol_oss.Base.{
  ℕ, suc, ◌+◌, ◌≡◌, ◌≢◌, refl, sym, ap, ◌∙◌, ◌⊎◌, inl, inr, List, [], ◌∷◌, ◌++◌, length, All,
  Option-cases, arith,
}
use mathlib.Core.List.{append_assoc}
use void_protocol_oss.Base.Bytes.{Bytes}
use void_protocol_oss.Receipt.Json.{Json, newline, carriage_return}
use void_protocol_oss.Receipt.Store.{
  Loaded, ok, err, Table, push, raw_lines, drop_cr, observe, load_lines,
}

abbrev pub IsLine : Bytes → Type 0
IsLine = All (λ b. (b ≢ newline) × (b ≢ carriage_return))

-- The file is empty or its last byte ends a line.
abbrev pub IsEnded : Bytes → Type 0
IsEnded c = (c ≡ []) ⊎ ((xs : Bytes) × (c ≡ xs ++ (newline ∷ [])))

push-append : (b : ℕ) (ls more : List Bytes) → ls ≢ [] → push b (ls ++ more) ≡ push b ls ++ more
unfolding push
push-append b [] more h = absurd (h refl)
push-append b (l ∷ ls) more h = refl

push-ne-nil : (b : ℕ) (ls : List Bytes) → push b ls ≢ []
unfolding push
push-ne-nil b [] = λ e. cc
push-ne-nil b (l ∷ ls) = λ e. cc

raw_lines-ne-nil : (xs ys : Bytes) → raw_lines (xs ++ (newline ∷ ys)) ≢ []
unfolding raw_lines
raw_lines-ne-nil [] ys = λ e. cc
raw_lines-ne-nil (b ∷ xs) ys = λ e. ground (arith, push-ne-nil b (raw_lines (xs ++ (newline ∷ ys))))

pub raw_lines-append :
    (xs ys : Bytes)
    → raw_lines (xs ++ (newline ∷ ys)) ≡ raw_lines (xs ++ (newline ∷ [])) ++ raw_lines ys
unfolding raw_lines
raw_lines-append [] ys = refl
raw_lines-append (b ∷ xs) ys = ground (
  arith,
  raw_lines-append xs ys,
  raw_lines-ne-nil xs [],
  push-append b (raw_lines (xs ++ (newline ∷ []))) (raw_lines ys),
)

raw_lines-line : (l : Bytes) → IsLine l → raw_lines (l ++ (newline ∷ [])) ≡ l ∷ []
unfolding raw_lines
raw_lines-line [] h = refl
raw_lines-line (b ∷ l) h = ground (arith, raw_lines-line l h.1)

pub drop_cr-line : (l : Bytes) → IsLine l → drop_cr l ≡ l
unfolding drop_cr
drop_cr-line [] h = refl
drop_cr-line (b ∷ []) h = ground arith
drop_cr-line (b ∷ c ∷ l) h = ap (λ m. b ∷ m) (drop_cr-line (c ∷ l) h.1)

pub raw_lines-ended :
    (c l : Bytes)
    → IsEnded c
    → IsLine l
    → raw_lines (c ++ (l ++ (newline ∷ []))) ≡ raw_lines c ++ (l ∷ [])
unfolding raw_lines
raw_lines-ended c l (inl e) h = rw e (raw_lines-line l h)
raw_lines-ended c l (inr (xs, e)) h = rw e (
    ap raw_lines (append_assoc xs (newline ∷ []) (l ++ (newline ∷ [])))
    ∙ raw_lines-append xs (l ++ (newline ∷ []))
    ∙ ap (λ m. raw_lines (xs ++ (newline ∷ [])) ++ m) (raw_lines-line l h))

pub IsEnded-line : (c l : Bytes) → IsEnded (c ++ (l ++ (newline ∷ [])))
IsEnded-line c l = inr (c ++ l, sym (append_assoc c l (newline ∷ [])))

-- The load of more lines goes on from the load of the first ones.
abbrev pub next {ℓ} : {A : Type ℓ} → Loaded A → (A → Loaded A) → Loaded A
next (ok a) f = f a
next (err e) f = err e

shift : (n m : ℕ) → n + 1 + m ≡ n + suc m
shift n m = omega arith

module _ (json : Json) where
  pub load_lines-append :
      (n : ℕ) (ls more : List Bytes) (t : Table)
      → load_lines json n (ls ++ more) t
        ≡ next (load_lines json n ls t) (load_lines json (n + length ls) more)
  unfolding load_lines
  load_lines-append n [] more t = ap (λ m. load_lines json m more t) (omega arith)
  load_lines-append n (l ∷ ls) more t = elim (Option-cases (json.unmarshal (drop_cr l))) [
    | inl e ↦ rw e (ground arith)
    | inr (r, e) ↦ rw e (
        ground (
          arith,
          load_lines-append (n + 1) ls more (observe r t),
          ap (λ m. load_lines json m more) (shift n (length ls)),
        ))
  ]
