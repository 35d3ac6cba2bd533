-- ===== src/Protocol/Kaitai.antt =====
-- The stream of the Kaitai runtime, which is not the gateway's code: its operations, and what they
-- do to the bytes and the offset that a stream stands for. A float is its bit pattern.
use void_protocol_oss.Base.{ℕ, ◌+◌, ◌≡◌, Option, none, some, length, slice, leb, if◌then◌else◌}
use void_protocol_oss.Base.Bytes.{Bytes}
use void_protocol_oss.Base.Ints.{ℤ, signed}
use void_protocol_oss.Base.Words.{le_value, be_value}

pub record Cursor : Type 0 where
  pub content : Bytes
  pub offset : ℕ

abbrev pub at_offset : ℕ → Cursor → Cursor
at_offset o c = record c { offset = o }

-- None is an error, after which the parse ends.
abbrev pub Parser : Type 0 → Type 0 → Type 0
Parser S A = S → Option (A × S)

abbrev pub pure : {S A : Type 0} → A → Parser S A
pure a s = some (a, s)

module _ {S A B : Type 0} where
  abbrev pub continue : Option (A × S) → (A → Parser S B) → Option (B × S)
  continue none k = none
  continue (some (a, s)) k = k a s

  infixl 5 ◌>>=◌ ◌>>◌
  abbrev pub ◌>>=◌ : Parser S A → (A → Parser S B) → Parser S B
  p >>= k = λ s. continue (p s) k

  abbrev pub ◌>>◌ : Parser S A → Parser S B → Parser S B
  p >> q = p >>= λ _. q

-- The parse fails.
abbrev pub fail : {S A : Type 0} → Parser S A
fail s = none

-- The value alone.
abbrev pub only : {A S : Type 0} → Option (A × S) → Option A
only none = none
only (some (a, s)) = some a

-- A result that another stream has given.
abbrev pub lift : {S A : Type 0} → Option A → Parser S A
lift none s = none
lift (some a) s = some (a, s)

-- What a result says of the cursor.
abbrev pub seen : {S A : Type 0} → (S → Cursor) → Option (A × S) → Option (A × Cursor)
seen view none = none
seen view (some (a, s)) = some (a, view s)

-- A value that may be refused, with the cursor behind it.
abbrev pub behind : {A : Type 0} → Option A → Cursor → Option (A × Cursor)
behind none c = none
behind (some a) c = some (a, c)

-- `w` bytes from the cursor on, if there are as many, and the value that `f` makes of them.
abbrev pub window : {A : Type 0} → ℕ → (Bytes → ℕ → Option A) → Cursor → Option (A × Cursor)
window w f c =
    if leb (c.offset + w) (length c.content)
    then behind (f c.content c.offset) (at_offset (c.offset + w) c)
    else none

abbrev pub word : {A : Type 0} → ℕ → (Bytes → A) → Bytes → ℕ → Option A
word w value bs o = some (value (slice o w bs))

-- A reader takes its bytes and advances, or reports that there are too few.
pub record Kaitai : Type 1 where
  pub Stream : Type 0
  pub new_stream : Bytes → Stream
  pub read_bytes : ℕ → Parser Stream Bytes
  pub read_u1 : Parser Stream ℕ
  pub read_u2be : Parser Stream ℕ
  pub read_u4be : Parser Stream ℕ
  pub read_u2le : Parser Stream ℕ
  pub read_u4le : Parser Stream ℕ
  pub read_u8le : Parser Stream ℕ
  pub read_s2le : Parser Stream ℤ
  pub read_s4le : Parser Stream ℤ
  pub read_f4le : Parser Stream ℕ
  pub read_f8le : Parser Stream ℕ
  pub pos : Parser Stream ℕ
  pub seek_start : ℕ → Parser Stream (Unit {0})
  pub view : Stream → Cursor
  pub new_lem : (bs : Bytes) → view (new_stream bs) ≡ record { content = bs; offset = 0 }
  pub bytes_lem :
      (n : ℕ) (s : Stream) → seen view (read_bytes n s) ≡ window n (word n (λ b. b)) (view s)
  pub u1_lem : (s : Stream) → seen view (read_u1 s) ≡ window 1 (word 1 le_value) (view s)
  pub u2be_lem : (s : Stream) → seen view (read_u2be s) ≡ window 2 (word 2 be_value) (view s)
  pub u4be_lem : (s : Stream) → seen view (read_u4be s) ≡ window 4 (word 4 be_value) (view s)
  pub u2le_lem : (s : Stream) → seen view (read_u2le s) ≡ window 2 (word 2 le_value) (view s)
  pub u4le_lem : (s : Stream) → seen view (read_u4le s) ≡ window 4 (word 4 le_value) (view s)
  pub u8le_lem : (s : Stream) → seen view (read_u8le s) ≡ window 8 (word 8 le_value) (view s)
  pub s2le_lem :
      (s : Stream)
      → seen view (read_s2le s) ≡ window 2 (word 2 (λ b. signed 0x8000 (le_value b))) (view s)
  pub s4le_lem :
      (s : Stream)
      → seen view (read_s4le s) ≡ window 4 (word 4 (λ b. signed 0x80000000 (le_value b))) (view s)
  pub f4le_lem : (s : Stream) → seen view (read_f4le s) ≡ window 4 (word 4 le_value) (view s)
  pub f8le_lem : (s : Stream) → seen view (read_f8le s) ≡ window 8 (word 8 le_value) (view s)
  pub pos_lem : (s : Stream) → seen view (pos s) ≡ some ((view s).offset, view s)
  pub seek_lem : (n : ℕ) (s : Stream) → seen view (seek_start n s) ≡ some (tt, at_offset n (view s))
