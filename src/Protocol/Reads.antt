-- ===== src/Protocol/Reads.antt =====
-- Parsers that take a fixed number of bytes, and what they make of them.
use void_protocol_oss.Base.{
  ℕ, ◌+◌, ◌≤◌, ◌≡◌, refl, sym, ap, ◌∙◌, inl, inr, true, false, Option, none, some, length, leb,
  Bool-cases, Option-cases, if◌then◌else◌, arith,
}
use void_protocol_oss.Base.Bytes.{Bytes}
use void_protocol_oss.Protocol.Kaitai.{
  Cursor, at_offset, Parser, pure, continue, ◌>>=◌, seen, behind, window, only, lift,
}

-- A later value, from an earlier one that may be refused.
abbrev pub chain : {A B : Type 0} → Option A → (A → Option B) → Option B
chain none f = none
chain (some a) f = f a

-- `p` takes `w` bytes, and makes `f` of them.
pub record Reads {S A : Type 0} (view : S → Cursor) (p : Parser S A) (w : ℕ)
    (f : Bytes → ℕ → Option A) : Type 0 where
  pub reads : (s : S) → seen view (p s) ≡ window w f (view s)

window-some :
    {A : Type 0} (w : ℕ) (f : Bytes → ℕ → Option A) (c c' : Cursor) (a : A)
    → some (a, c') ≡ window w f c
    → (c' ≡ at_offset (c.offset + w) c)
      × (f c.content c.offset ≡ some a)
      × (c.offset + w ≤ length c.content)
window-some w f c c' a e = elim (Bool-cases (leb (c.offset + w) (length c.content))) [
  | inl b ↦ elim (Option-cases (f c.content c.offset)) [
    | inl x ↦ absurd (ground (arith, e, b, x))
    | inr (a', x) ↦ ground (arith, e, b, x)
  ]
  | inr b ↦ absurd (ground (arith, e, b))
]

module _ {A B : Type 0} (w v : ℕ) (f : Bytes → ℕ → Option A) (g : A → Bytes → ℕ → Option B) where
  abbrev joined : Bytes → ℕ → Option B
  joined bs o = chain (f bs o) (λ a. g a bs (o + w))

  window-none : (c : Cursor) → none ≡ window w f c → none ≡ window (w + v) joined c
  window-none c e = elim (Bool-cases (leb (c.offset + w) (length c.content))) [
    | inl b ↦ elim (Option-cases (f c.content c.offset)) [
      | inl x ↦ elim (Bool-cases (leb (c.offset + (w + v)) (length c.content))) [
        | inl b' ↦ rw (b', x) refl
        | inr b' ↦ rw b' refl
      ]
      | inr (a, x) ↦ absurd (ground (arith, e, b, x))
    ]
    | inr b ↦
        let b' : leb (c.offset + (w + v)) (length c.content) ≡ false = ground (arith, b) in
        rw b' refl
  ]

  window_next :
      (c : Cursor) (a : A)
      → f c.content c.offset ≡ some a
      → window v (g a) (at_offset (c.offset + w) c) ≡ window (w + v) joined c
  window_next c a x = let o : c.offset + w + v ≡ c.offset + (w + v) = omega arith in rw (x, o) refl

seen-lift :
    {S A : Type 0} (view : S → Cursor) (x : Option A) (s : S)
    → seen view (lift x s) ≡ behind x (view s)
seen-lift view none s = refl
seen-lift view (some a) s = refl

module _ {A B : Type 0} (w : ℕ) (f : Bytes → ℕ → Option A) (g : A → Option B) where
  window_last_none :
      (c : Cursor) → none ≡ window w f c → none ≡ window w (λ bs o. chain (f bs o) g) c
  window_last_none c e = elim (Bool-cases (leb (c.offset + w) (length c.content))) [
    | inl b ↦ elim (Option-cases (f c.content c.offset)) [
      | inl x ↦ rw (b, x) refl
      | inr (a, x) ↦ absurd (ground (arith, e, b, x))
    ]
    | inr b ↦ rw b refl
  ]

  window_last :
      (c : Cursor) (a : A)
      → f c.content c.offset ≡ some a
      → c.offset + w ≤ length c.content
      → behind (g a) (at_offset (c.offset + w) c) ≡ window w (λ bs o. chain (f bs o) g) c
  window_last c a x l =
      let b : leb (c.offset + w) (length c.content) ≡ true = ground (arith, l) in rw (b, x) refl

only-seen : {S A : Type 0} (view : S → Cursor) (x : Option (A × S)) → only (seen view x) ≡ only x
only-seen view none = refl
only-seen view (some (a, s)) = refl

only-behind : {A : Type 0} (x : Option A) (c : Cursor) → only (behind x c) ≡ x
only-behind none c = refl
only-behind (some a) c = refl

only-window :
    {A : Type 0} (w : ℕ) (f : Bytes → ℕ → Option A) (c : Cursor)
    → only (window w f c)
      ≡ (if leb (c.offset + w) (length c.content) then f c.content c.offset else none)
only-window w f c = elim (Bool-cases (leb (c.offset + w) (length c.content))) [
  | inl b ↦ rw b (only-behind (f c.content c.offset) (at_offset (c.offset + w) c))
  | inr b ↦ rw b refl
]

module _ {S A B : Type 0} {view : S → Cursor} {p : Parser S A} {w : ℕ}
    {f : Bytes → ℕ → Option A} where
  pub bind-Reads :
      {q : A → Parser S B} {v : ℕ} {g : A → Bytes → ℕ → Option B}
      → Reads view p w f
      → ((a : A) → Reads view (q a) v (g a))
      → Reads view (p >>= q) (w + v) (λ bs o. chain (f bs o) (λ a. g a bs (o + w)))
  bind-Reads {q = q} {v = v} {g = g} hp hq = record {
    reads = λ s. elim (Option-cases (p s)) [
      | inl e ↦
          ap (λ x. seen view (continue x q)) e
          ∙ window-none w v f g (view s) (sym (ap (seen view) e) ∙ hp.reads s)
      | inr ((a, s'), e) ↦
          let (c, x, _) =
            window-some w f (view s) (view s') a (sym (ap (seen view) e) ∙ hp.reads s) in
          ap (λ x. seen view (continue x q)) e
          ∙ (hq a).reads s'
          ∙ ap (window v (g a)) c
          ∙ window_next w v f g (view s) a x
    ];
  }

  -- What follows does not touch the stream.
  pub last-Reads :
      {q : A → Parser S B} (g : A → Option B)
      → Reads view p w f
      → ((bs : Bytes) (o : ℕ) (a : A)
          → o + w ≤ length bs
          → f bs o ≡ some a
          → (s : S) → q a s ≡ lift (g a) s)
      → Reads view (p >>= q) w (λ bs o. chain (f bs o) g)
  last-Reads {q = q} g hp hq = record {
    reads = λ s. elim (Option-cases (p s)) [
      | inl e ↦
          ap (λ x. seen view (continue x q)) e
          ∙ window_last_none w f g (view s) (sym (ap (seen view) e) ∙ hp.reads s)
      | inr ((a, s'), e) ↦
          let (c, x, l) =
            window-some w f (view s) (view s') a (sym (ap (seen view) e) ∙ hp.reads s) in
          ap (λ x. seen view (continue x q)) e
          ∙ ap (seen view) (hq (view s).content (view s).offset a l x s')
          ∙ seen-lift view (g a) s'
          ∙ ap (behind (g a)) c
          ∙ window_last w f g (view s) a x l
    ];
  }

  pub map-Reads :
      (h : A → B)
      → Reads view p w f
      → Reads view (p >>= λ a. pure (h a)) w (λ bs o. chain (f bs o) (λ a. some (h a)))
  map-Reads h hp = last-Reads (λ a. some (h a)) hp (λ bs o a l e s. refl)

module _ {S A : Type 0} {view : S → Cursor} {p : Parser S A} {w : ℕ}
    {f : Bytes → ℕ → Option A} where
  pub read_from :
      (bs : Bytes) (o : ℕ) (s : S)
      → Reads view p w f
      → view s ≡ record { content = bs; offset = o }
      → only (p s) ≡ (if leb (o + w) (length bs) then f bs o else none)
  read_from bs o s hp e =
      sym (only-seen view (p s))
      ∙ ap only (hp.reads s)
      ∙ only-window w f (view s)
      ∙ ap
          (λ (c : Cursor).
            if leb (c.offset + w) (length c.content) then f c.content c.offset else none)
          e

  -- A reader at the start of a stream, and where it stops.
  pub read_start :
      (bs : Bytes) (s : S)
      → Reads view p w f
      → view s ≡ record { content = bs; offset = 0 }
      → only (p s) ≡ (if leb w (length bs) then f bs 0 else none)
  read_start bs s hp e =
      let z : 0 + w ≡ w = omega arith in
      read_from bs 0 s hp e ∙ ap (λ n. if leb n (length bs) then f bs 0 else none) z

  pub stops_at :
      (bs : Bytes) (s s' : S) (a : A)
      → Reads view p w f
      → view s ≡ record { content = bs; offset = 0 }
      → p s ≡ some (a, s')
      → view s' ≡ record { content = bs; offset = w }
  stops_at bs s s' a hp e r =
      let (c, _, _) = window-some w f (view s) (view s') a (sym (ap (seen view) r) ∙ hp.reads s) in
      let z : 0 + w ≡ w = omega arith in
      c
      ∙ ap (λ (d : Cursor). at_offset (d.offset + w) d) e
      ∙ ap (λ n. record { content = bs; offset = n }) z

  -- Where the stream holds just its bytes.
  pub read_whole :
      (bs : Bytes) (s : S)
      → Reads view p w f
      → view s ≡ record { content = bs; offset = 0 }
      → length bs ≡ w
      → only (p s) ≡ f bs 0
  read_whole bs s hp e l =
      let b : leb w (length bs) ≡ true = ground (arith, l) in read_start bs s hp e ∙ rw b refl
