-- ===== src/Base/Words.antt =====
-- Machine words and their bytes: encoding/binary's LittleEndian and BigEndian.
use void_protocol_oss.Base.Lists.{length, All}
use void_protocol_oss.Base.Bytes.{Bytes, IsByte}
use Prim.Native.Nat.{ℕ, zero, suc, ◌+◌, ◌*◌, ◌/◌, ◌%◌, ◌^◌, ◌≤◌, ◌<◌}
use mathlib.Core.Path.{◌≡◌, refl, ap}
use mathlib.Core.List.{[], ◌∷◌}
use native.Mathlib.Omega.{arith}
use native.Mathlib.Nat.{pow-suc, mul-le-mul_right}

-- `PutUint16`, `PutUint32` and `PutUint64` at widths 2, 4 and 8; the value wraps.
abbrev pub le_bytes : ℕ → ℕ → Bytes
le_bytes zero n = []
le_bytes (suc w) n = (n % 256) ∷ le_bytes w (n / 256)

-- `Uint16`, `Uint32` and `Uint64`.
abbrev pub le_value : Bytes → ℕ
le_value [] = 0
le_value (b ∷ bs) = b + 256 * le_value bs

-- The big-endian value, with what is read so far.
abbrev pub be_value_from : ℕ → Bytes → ℕ
be_value_from acc [] = acc
be_value_from acc (b ∷ bs) = be_value_from (acc * 256 + b) bs

abbrev pub be_value : Bytes → ℕ
be_value = be_value_from 0

pub length-le_bytes : (w n : ℕ) → length (le_bytes w n) ≡ w
length-le_bytes zero n = refl
length-le_bytes (suc w) n = ap suc (length-le_bytes w (n / 256))

pub le_bytes-All : (w n : ℕ) → All IsByte (le_bytes w n)
le_bytes-All zero n = tt
le_bytes-All (suc w) n = (omega arith, le_bytes-All w (n / 256))

pub le_value-le_bytes : (w n : ℕ) → n < 256 ^ w → le_value (le_bytes w n) ≡ n
le_value-le_bytes zero n h = omega arith
le_value-le_bytes (suc w) n h =
    let k : n < 256 ^ w * 256 = rw (← pow-suc) h in
    omega (arith, le_value-le_bytes w (n / 256) (omega arith))

pub le_bytes-le_value :
    (w : ℕ) (bs : Bytes) → length bs ≡ w → All IsByte bs → le_bytes w (le_value bs) ≡ bs
le_bytes-le_value zero [] l h = refl
le_bytes-le_value zero (b ∷ bs) l h = absurd (omega arith)
le_bytes-le_value (suc w) [] l h = absurd (omega arith)
le_bytes-le_value (suc w) (b ∷ bs) l h =
    let lo : (b + 256 * le_value bs) % 256 ≡ b = omega arith in
    let hi : (b + 256 * le_value bs) / 256 ≡ le_value bs = omega arith in
    rw (lo, hi, le_bytes-le_value w bs (omega arith) h.1) refl

be_value_from_bound :
    (acc : ℕ) (bs : Bytes) → All IsByte bs → be_value_from acc bs + 1 ≤ (acc + 1) * 256 ^ length bs
be_value_from_bound acc [] h = omega arith
be_value_from_bound acc (b ∷ bs) h =
    let power : 256 ^ length (b ∷ bs) ≡ 256 ^ length bs * 256 = pow-suc 256 (length bs) in
    let b_byte : acc * 256 + b + 1 ≤ (acc + 1) * 256 = let x = h.0 in omega (arith, x) in
    let rest = be_value_from_bound (acc * 256 + b) bs h.1 in
    rw power (grind (arith, rest, mul-le-mul_right (256 ^ length bs) b_byte))

-- A big-endian word is below 256 to the number of its bytes.
pub be_value_bound : (w : ℕ) (bs : Bytes) → length bs ≡ w → All IsByte bs → be_value bs < 256 ^ w
be_value_bound w bs l h =
    let size : 256 ^ length bs ≡ 256 ^ w = ap (λ n. 256 ^ n) l in
    omega (arith, be_value_from_bound 0 bs h, size)
