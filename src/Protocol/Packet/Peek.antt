-- ===== src/Protocol/Packet/Peek.antt =====
-- A peek at the start of the stream.
use void_protocol_oss.Base.{
  ℕ, ◌+◌, ◌≤◌, ◌≡◌, refl, ap, ◌∙◌, true, false, Option, none, some, length, slice, leb, arith,
}
use void_protocol_oss.Base.Bytes.{Bytes}
use void_protocol_oss.Base.Words.{be_value}
use void_protocol_oss.Protocol.Kaitai.{Kaitai, Cursor, at_offset, Parser, seen, window, word}
use void_protocol_oss.Protocol.Reads.{Reads}
use void_protocol_oss.Protocol.Packet.{peek, magic_peek}

module _ (k : Kaitai) where
  abbrev pub Holds : Bytes → ℕ → k.Stream → Type 0
  Holds bs o s = k.view s ≡ record { content = bs; offset = o }

  -- A result that is seen has a stream with that cursor.
  unseen :
      {A : Type 0} (x : Option (A × k.Stream)) (a : A) (c : Cursor)
      → seen k.view x ≡ some (a, c)
      → (s : k.Stream) × (x ≡ some (a, s)) × (k.view s ≡ c)
  unseen none a c e = absurd (cc)
  unseen (some (b, s)) a c e = let ea : b ≡ a = cc in (s, rw ea refl, cc)

  unseen_none : {A : Type 0} (x : Option (A × k.Stream)) → seen k.view x ≡ none → x ≡ none
  unseen_none none e = refl
  unseen_none (some (b, s)) e = absurd (cc)

  peek_runs :
      (p : Parser k.Stream ℕ) (a o : ℕ) (s s₁ s₂ s₃ s₄ : k.Stream)
      → k.pos s ≡ some (o, s₁)
      → k.seek_start 0 s₁ ≡ some (tt, s₂)
      → p s₂ ≡ some (a, s₃)
      → k.seek_start o s₃ ≡ some (tt, s₄)
      → peek k p s ≡ some (a, s₄)
  peek_runs p a o s s₁ s₂ s₃ s₄ e₁ e₂ e₃ e₄ = rw (e₁, e₂, e₃, e₄) refl

  window_whole :
      (w : ℕ) (f : Bytes → ℕ) (bs : Bytes)
      → w ≤ length bs
      → window w (word w f) (record { content = bs; offset = 0 })
        ≡ some (f (slice 0 w bs), record { content = bs; offset = w })
  window_whole w f bs l =
      let z : 0 + w ≡ w = omega arith in
      let b : leb w (length bs) ≡ true = ground (arith, l) in rw (z, b) refl

  -- A peek of a number leaves the cursor where it was.
  pub peeked :
      (p : Parser k.Stream ℕ) (w : ℕ) (f : Bytes → ℕ)
      → Reads k.view p w (word w f)
      → (bs : Bytes) (o : ℕ) (s : k.Stream) → Holds bs o s
      → w ≤ length bs
      → (s' : k.Stream) × (peek k p s ≡ some (f (slice 0 w bs), s')) × Holds bs o s'
  peeked p w f hp bs o s h l =
      let (s₁, e₁, v₁) = unseen (k.pos s) _ _ (k.pos_lem s) in
      let (s₂, e₂, v₂) = unseen (k.seek_start 0 s₁) _ _ (k.seek_lem 0 s₁) in
      let c₂ : k.view s₂ ≡ record { content = bs; offset = 0 } = v₂ ∙ ap (at_offset 0) (v₁ ∙ h) in
      let (s₃, e₃, v₃) =
        unseen (p s₂) (f (slice 0 w bs)) (record { content = bs; offset = w })
          (hp.reads s₂ ∙ ap (window w (word w f)) c₂ ∙ window_whole w f bs l) in
      let (s₄, e₄, v₄) =
        unseen (k.seek_start ((k.view s).offset) s₃) _ _ (k.seek_lem ((k.view s).offset) s₃) in
      (
        s₄,
        peek_runs p (f (slice 0 w bs)) ((k.view s).offset) s s₁ s₂ s₃ s₄ e₁ e₂ e₃ e₄,
        v₄
            ∙ ap (at_offset ((k.view s).offset)) v₃
            ∙ ap (λ (c : Cursor). record { content = bs; offset = c.offset }) h,
      )

  -- A peek beyond the end fails.
  pub peek_short :
      (bs : Bytes) (s : k.Stream) → Holds bs 0 s → length bs + 1 ≤ 4 → magic_peek k s ≡ none
  unfolding magic_peek
  peek_short bs s h l =
      let (s₁, e₁, v₁) = unseen (k.pos s) _ _ (k.pos_lem s) in
      let (s₂, e₂, v₂) = unseen (k.seek_start 0 s₁) _ _ (k.seek_lem 0 s₁) in
      let c₂ : k.view s₂ ≡ record { content = bs; offset = 0 } = v₂ ∙ ap (at_offset 0) (v₁ ∙ h) in
      let b : leb 4 (length bs) ≡ false = ground (arith, l) in
      let e₃ : k.read_u4be s₂ ≡ none =
        unseen_none (k.read_u4be s₂)
          (k.u4be_lem s₂ ∙ ap (window 4 (word 4 be_value)) c₂ ∙ rw b refl) in
      rw (e₁, e₂, e₃) refl
