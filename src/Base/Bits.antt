-- ===== src/Base/Bits.antt =====
-- Go's `&` and `|` on unsigned words, at variables: a mask of low ones is a remainder, and `|` of
-- parts that share no bit is a sum.
use Prim.Native.Nat.{
  ℕ, zero, suc, ◌+◌, ◌*◌, ◌/◌, ◌%◌, ◌^◌, ◌≤◌, ◌<◌, min, max, bit_and, bit_or, digits,
  bit_and-bitwise, bit_or-bitwise,
}
use mathlib.Core.Path.{◌≡◌, refl, sym, ap, ◌∙◌}
use native.Mathlib.Omega.{arith}
use native.Mathlib.Nat.{pow-suc, mod-lt, mod-eq_of_lt, add-mul-mod_self_left, div-add-mod}

-- The digit-wise operations at once: `rest` is the result where the first number has run out.
module _ (rest : ℕ → ℕ) (op : ℕ → ℕ → ℕ) where
  out_of_digits : (k y : ℕ) → digits rest op k zero y ≡ rest y
  out_of_digits zero y = refl
  out_of_digits (suc k) y = refl

  -- The count of digits to go does not matter where it is large enough.
  same_count : (j k x y : ℕ) → x ≤ j → x ≤ k → digits rest op j x y ≡ digits rest op k x y
  same_count j k zero y hj hk = out_of_digits j y ∙ sym (out_of_digits k y)
  same_count zero k (suc x) y hj hk = absurd (omega arith)
  same_count (suc j) zero (suc x) y hj hk = absurd (omega arith)
  same_count (suc j) (suc k) (suc x) y hj hk =
      ap (λ d. d * 2 + op (suc x % 2) (y % 2))
        (same_count j k (suc x / 2) (y / 2) (omega arith) (omega arith))

  lowest_digit :
      ((y : ℕ) → rest y ≡ rest (y / 2) * 2 + op 0 (y % 2))
      → (x y : ℕ)
      → digits rest op x x y ≡ digits rest op (x / 2) (x / 2) (y / 2) * 2 + op (x % 2) (y % 2)
  lowest_digit ended zero y = ended y
  lowest_digit ended (suc x) y =
      ap (λ d. d * 2 + op (suc x % 2) (y % 2))
        (same_count x (suc x / 2) (suc x / 2) (y / 2) (omega arith) (omega arith))

and_lowest : (x y : ℕ) → bit_and x y ≡ bit_and (x / 2) (y / 2) * 2 + min (x % 2) (y % 2)
and_lowest x y =
    bit_and-bitwise x y
    ∙ lowest_digit (λ y. zero) min (λ y. omega arith) x y
    ∙ ap (λ d. d * 2 + min (x % 2) (y % 2)) (sym (bit_and-bitwise (x / 2) (y / 2)))

or_lowest : (x y : ℕ) → bit_or x y ≡ bit_or (x / 2) (y / 2) * 2 + max (x % 2) (y % 2)
or_lowest x y =
    bit_or-bitwise x y
    ∙ lowest_digit (λ y. y) max (λ y. omega arith) x y
    ∙ ap (λ d. d * 2 + max (x % 2) (y % 2)) (sym (bit_or-bitwise (x / 2) (y / 2)))

and_nothing : (bound x : ℕ) → x ≤ bound → bit_and x 0 ≡ 0
and_nothing zero x h = ap (λ n. bit_and n 0) (zero_of x h)
  where
    zero_of : (n : ℕ) → n ≤ 0 → n ≡ 0
    zero_of n h = omega arith
and_nothing (suc bound) zero h = refl
and_nothing (suc bound) (suc x) h =
    omega (arith, and_nothing bound (suc x / 2) (omega arith), and_lowest (suc x) 0)

or_nothing : (bound x : ℕ) → x ≤ bound → bit_or x 0 ≡ x
or_nothing bound zero h = refl
or_nothing zero (suc x) h = absurd (omega arith)
or_nothing (suc bound) (suc x) h =
    omega (arith, or_nothing bound (suc x / 2) (omega arith), or_lowest (suc x) 0)

-- The remainder by `p * 2` in terms of the remainder of the half by `p`.
half_mod : (a p : ℕ) → 0 < p → a % (p * 2) ≡ a / 2 % p * 2 + a % 2
half_mod a p h =
    ap (λ (x : ℕ). x % (p * 2)) split
    ∙ add-mul-mod_self_left (a / 2 % p * 2 + a % 2) (p * 2) (a / 2 / p)
    ∙ mod-eq_of_lt (omega (arith, mod-lt (a / 2) h))
  where
    split : a ≡ (a / 2 % p * 2 + a % 2) + p * 2 * (a / 2 / p)
    split = omega (arith, div-add-mod (a / 2) p)

pow-pos : (k : ℕ) → 0 < 2 ^ k
pow-pos zero = omega arith
pow-pos (suc k) = rw pow-suc (omega (arith, pow-pos k))

-- `a & (2 ^ k - 1)`, the mask written as `m + 1 = 2 ^ k`.
pub bit_and_mask : (k a m : ℕ) → m + 1 ≡ 2 ^ k → bit_and a m ≡ a % 2 ^ k
bit_and_mask zero a m h =
    let z : m ≡ 0 = omega arith in rw z (omega (arith, and_nothing a a (omega arith)))
bit_and_mask (suc k) a m h =
    let h' : m + 1 ≡ 2 ^ k * 2 = h ∙ pow-suc 2 k in
    rw pow-suc (
      omega (
        arith,
        and_lowest a m,
        bit_and_mask k (a / 2) (m / 2) (omega arith),
        half_mod a (2 ^ k) (pow-pos k),
      ))

halve : (z w : ℕ) → w ≡ z * 2 → w / 2 ≡ z
halve z w h = omega arith

-- `x << k | y` for `y` below `2 ^ k`.
pub bit_or_shift : (k x y : ℕ) → y < 2 ^ k → bit_or (x * 2 ^ k) y ≡ x * 2 ^ k + y
bit_or_shift zero x y h =
    let z : y ≡ 0 = omega arith in rw z (omega (arith, or_nothing (x * 1) (x * 1) (omega arith)))
bit_or_shift (suc k) x y h =
    let h' : y < 2 ^ k * 2 = rw (← pow-suc) h in
    rw pow-suc (
      omega (
        arith,
        or_lowest (x * (2 ^ k * 2)) y,
        ap (λ (z : ℕ). bit_or z (y / 2)) (halve (x * 2 ^ k) (x * (2 ^ k * 2)) (omega arith)),
        bit_or_shift k x (y / 2) (omega arith),
      ))
