-- ===== src/Chain/Client/Embedded.antt =====
-- gateway/internal/core/chain/client.go: what the package's init makes of the embedded files, and
-- the two accessors of the client.
use void_protocol_oss.Base.{
  ℕ, ◌/◌, ◌%◌, ◌≡◌, refl, ap, ◌∙◌, Bool, true, false, ◌||◌, ◌&&◌, Option, none, some, [], ◌∷◌, ◌++◌,
  All, leb, ltb, ◌==◌, if◌then◌else◌, arith,
}
use void_protocol_oss.Base.Bytes.{Bytes, IsByte, codes}
use void_protocol_oss.Base.Text.{hex, hex_decode, hex_decode-hex, hex_digit}
use void_protocol_oss.Chain.Client.{EscrowClient, trim_prefix_0x}

-- `strings.TrimSpace` on ASCII text: tab, newline, vertical tab, form feed, return and blank.
abbrev pub is_space : ℕ → Bool
is_space c = (leb 9 c && ltb c 14) || (c == 32)

unfoldable pub trim_left : Bytes → Bytes
trim_left [] = []
trim_left (c ∷ cs) = let rest = trim_left cs in if is_space c then rest else c ∷ cs

-- A byte in front of a text whose trailing space is gone.
abbrev pub put : ℕ → Bytes → Bytes
put c [] = if is_space c then [] else c ∷ []
put c (d ∷ ds) = c ∷ d ∷ ds

unfoldable pub trim_right : Bytes → Bytes
trim_right [] = []
trim_right (c ∷ cs) = put c (trim_right cs)

unfoldable pub trim_space : Bytes → Bytes
unfolding trim_left trim_right
trim_space cs = trim_right (trim_left cs)

-- The bytecode, or the panic with which the program ends.
pub data Embedded : Type 0 where
  bytecode : Bytes → Embedded
  abi_panic bytecode_panic : Embedded

abbrev pub decoded : Option Bytes → Embedded
decoded none = bytecode_panic
decoded (some raw) = bytecode raw

-- `parses` is whether go-ethereum's `abi.JSON` takes the embedded ABI.
unfoldable pub init_embedded : Bool → Bytes → Embedded
init_embedded parses text =
    if parses then decoded (hex_decode (trim_prefix_0x (trim_space text))) else abi_panic

abbrev pub address_of : EscrowClient → Bytes
address_of c = c.address

-- The node's answer for the transaction as it is now; none is its error.
abbrev pub wait_for_receipt : {A : Type 0} → (Bytes → Option A) → Bytes → Option A
wait_for_receipt transaction_receipt tx_hash = transaction_receipt tx_hash

abbrev pub AreSpaces : Bytes → Type 0
AreSpaces = All (λ c. is_space c ≡ true)

abbrev NoSpaces : Bytes → Type 0
NoSpaces = All (λ c. is_space c ≡ false)

trim_left-append : (ws cs : Bytes) → AreSpaces ws → trim_left (ws ++ cs) ≡ trim_left cs
unfolding trim_left
trim_left-append [] cs h = refl
trim_left-append (w ∷ ws) cs h = rw (h.0) (trim_left-append ws cs h.1)

trim_right-AreSpaces : (ws : Bytes) → AreSpaces ws → trim_right ws ≡ []
unfolding trim_right
trim_right-AreSpaces [] h = refl
trim_right-AreSpaces (w ∷ ws) h =
    ap (put w) (trim_right-AreSpaces ws h.1) ∙ ap (λ b. if b then [] else w ∷ []) h.0

put-NoSpaces : (c : ℕ) (cs : Bytes) → is_space c ≡ false → put c cs ≡ c ∷ cs
put-NoSpaces c [] h = ap (λ b. if b then [] else c ∷ []) h
put-NoSpaces c (d ∷ ds) h = refl

trim_right-append : (cs ws : Bytes) → NoSpaces cs → AreSpaces ws → trim_right (cs ++ ws) ≡ cs
unfolding trim_right
trim_right-append [] ws n h = trim_right-AreSpaces ws h
trim_right-append (c ∷ cs) ws n h =
    ap (put c) (trim_right-append cs ws n.1 h) ∙ put-NoSpaces c cs n.0

hex_digit-is_space : (n : ℕ) → is_space (hex_digit n) ≡ false
hex_digit-is_space n = ground arith

hex-NoSpaces : (bs : Bytes) → NoSpaces (hex bs)
hex-NoSpaces [] = tt
hex-NoSpaces (b ∷ bs) =
    (hex_digit-is_space (b / 16), (hex_digit-is_space (b % 16), hex-NoSpaces bs))

-- An embedded file that holds the hex text of some bytes behind `0x`, with white space around it,
-- is read as these bytes.
pub init_embedded-hex :
    (ws ws' bs : Bytes)
    → AreSpaces ws
    → AreSpaces ws'
    → All IsByte bs
    → init_embedded true (ws ++ ((codes "0x" ++ hex bs) ++ ws')) ≡ bytecode bs
unfolding init_embedded trim_space trim_left
init_embedded-hex ws ws' bs h h' b =
    let text = codes "0x" ++ hex bs in
    ap (λ x. decoded (hex_decode (trim_prefix_0x (trim_right x))))
      (trim_left-append ws (text ++ ws') h)
    ∙ ap (λ x. decoded (hex_decode (trim_prefix_0x x)))
        (trim_right-append text ws' (refl, (refl, hex-NoSpaces bs)) h')
    ∙ ap decoded (hex_decode-hex bs b)
