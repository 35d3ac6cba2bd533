-- ===== src/Base/Text.antt =====
-- Numbers and bytes as text: math/big's `String` for a number that is not negative, and
-- encoding/hex's `EncodeToString`.
use Prim.Native.Nat.{ℕ, zero, suc, ◌+◌, ◌-◌, ◌*◌, ◌/◌, ◌%◌, ◌^◌, ◌≤◌, ◌<◌}
use mathlib.Core.Path.{◌≡◌, refl, sym, ap, ◌∙◌}
use mathlib.Core.Bool.{true, false, ◌&&◌}
use mathlib.Core.Logic.{inl, inr}
use mathlib.Core.Option.{Option, none, some}
use mathlib.Core.List.{[], ◌∷◌, ◌++◌}
use native.Mathlib.Omega.{arith}
use native.Mathlib.Nat.{pow-suc}
use void_protocol_oss.Base.Tests.{ltb, leb, if◌then◌else◌, Bool-cases}
use void_protocol_oss.Base.Lists.{length, length-append, All, All-append}
use void_protocol_oss.Base.Bytes.{Bytes, IsByte}

-- The decimal digits, for a fuel above the number.
unfoldable decimal_from : ℕ → ℕ → Bytes
decimal_from zero n = []
decimal_from (suc fuel) n = elim (ltb n 10) [
  | true ↦ (48 + n) ∷ []
  | false ↦ decimal_from fuel (n / 10) ++ ((48 + n % 10) ∷ [])
]

unfoldable pub decimal : ℕ → Bytes
unfolding decimal_from
decimal n = decimal_from (suc n) n

abbrev pub hex_digit : ℕ → ℕ
hex_digit n = if ltb n 10 then 48 + n else 87 + n

abbrev pub hex : Bytes → Bytes
hex [] = []
hex (b ∷ bs) = hex_digit (b / 16) ∷ hex_digit (b % 16) ∷ hex bs

abbrev value_from : ℕ → Bytes → ℕ
value_from acc [] = acc
value_from acc (d ∷ ds) = value_from (acc * 10 + (d - 48)) ds

value_from-snoc :
    (acc d : ℕ) (ds : Bytes) → value_from acc (ds ++ (d ∷ [])) ≡ value_from acc ds * 10 + (d - 48)
value_from-snoc acc d [] = refl
value_from-snoc acc d (e ∷ ds) = value_from-snoc (acc * 10 + (e - 48)) d ds

value-decimal_from : (fuel n : ℕ) → n < fuel → value_from 0 (decimal_from fuel n) ≡ n
unfolding decimal_from
value-decimal_from zero n h = absurd (omega arith)
value-decimal_from (suc fuel) n h = elim (Bool-cases (ltb n 10)) [
  | inl e ↦ rw (decimal_from, e) (omega arith)
  | inr e ↦
      rw (decimal_from, e)
        (value_from-snoc 0 (48 + n % 10) (decimal_from fuel (n / 10))
          ∙ ground (arith, e, value-decimal_from fuel (n / 10)))
]

-- Two numbers with the same digits are equal.
pub decimal-injective : (m n : ℕ) → decimal m ≡ decimal n → m ≡ n
unfolding decimal
decimal-injective m n e =
    sym (value-decimal_from (suc m) m (omega arith))
    ∙ ap (value_from 0) e
    ∙ value-decimal_from (suc n) n (omega arith)

abbrev pub IsDigit : ℕ → Type 0
IsDigit c = (48 ≤ c) × (c < 58)

decimal_from-All : (fuel n : ℕ) → All IsDigit (decimal_from fuel n)
unfolding decimal_from
decimal_from-All zero n = tt
decimal_from-All (suc fuel) n = elim (Bool-cases (ltb n 10)) [
  | inl e ↦ rw (decimal_from, e) (ground (arith, e))
  | inr e ↦
      rw (decimal_from, e)
        (All-append IsDigit (decimal_from fuel (n / 10)) ((48 + n % 10) ∷ [])
          (decimal_from-All fuel (n / 10)) (omega arith))
]

pub decimal-All : (n : ℕ) → All IsDigit (decimal n)
unfolding decimal
decimal-All n = decimal_from-All (suc n) n

-- Numbers of up to `k + 1` digits.
decimal_from-length : (k fuel n : ℕ) → n < 10 ^ suc k → length (decimal_from fuel n) ≤ suc k
unfolding decimal_from
decimal_from-length k zero n h = omega arith
decimal_from-length zero (suc fuel) n h = elim (Bool-cases (ltb n 10)) [
  | inl e ↦ rw (decimal_from, e) (omega arith)
  | inr e ↦ absurd (ground (arith, e))
]
decimal_from-length (suc k) (suc fuel) n h = elim (Bool-cases (ltb n 10)) [
  | inl e ↦ rw (decimal_from, e) (omega arith)
  | inr e ↦
      let h' : n < 10 ^ suc k * 10 = rw (← pow-suc) h in
      let few = decimal_from-length k fuel (n / 10) (omega arith) in
      rw (decimal_from, e)
        (omega (arith, few, length-append (decimal_from fuel (n / 10)) ((48 + n % 10) ∷ [])))
]

pub decimal-length : (k n : ℕ) → n < 10 ^ suc k → length (decimal n) ≤ suc k
unfolding decimal
decimal-length k n h = decimal_from-length k (suc n) n h

pub hex-All : (bs : Bytes) → All IsByte bs → All (λ b. b < 128) (hex bs)
hex-All [] h = tt
hex-All (b ∷ bs) h = (ground arith, (ground arith, hex-All bs h.1))

pub length-hex : (bs : Bytes) → length (hex bs) ≡ 2 * length bs
length-hex [] = refl
length-hex (b ∷ bs) = omega (arith, length-hex bs)

-- `DecodeString`: the value of a digit of either case.
abbrev pub hex_value : ℕ → Option ℕ
hex_value c =
    if leb 48 c && ltb c 58
    then some (c - 48)
    else if leb 97 c && ltb c 103
    then some (c - 87)
    else if leb 65 c && ltb c 71
    then some (c - 55)
    else none

abbrev hex_pair : Option ℕ → Option ℕ → Option Bytes → Option Bytes
hex_pair (some h) (some l) (some bs) = some ((h * 16 + l) ∷ bs)
hex_pair h l bs = none

-- None is the error for another character or an odd length.
unfoldable pub hex_decode : Bytes → Option Bytes
hex_decode [] = some []
hex_decode (c ∷ []) = none
hex_decode (c ∷ d ∷ cs) = hex_pair (hex_value c) (hex_value d) (hex_decode cs)

hex_value-hex_digit : (n : ℕ) → n < 16 → hex_value (hex_digit n) ≡ some n
hex_value-hex_digit n h = ground arith

pub hex_decode-hex : (bs : Bytes) → All IsByte bs → hex_decode (hex bs) ≡ some bs
unfolding hex_decode
hex_decode-hex [] h = refl
hex_decode-hex (b ∷ bs) h =
    let both : b / 16 * 16 + b % 16 ≡ b = omega arith in
    rw
      (
        hex_value-hex_digit (b / 16) (omega arith),
        hex_value-hex_digit (b % 16) (omega arith),
        hex_decode-hex bs h.1,
        both,
      )
      refl
