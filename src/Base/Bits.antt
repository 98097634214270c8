-- ===== src/Base/Bits.antt =====
-- The bit operations of machine words, one binary digit at a time: what `&`, `|` and a complement
-- do to each bit, and masks as remainders.
use Prim.Native.Nat.{digits, bit_and-bitwise, bit_or-bitwise}
use Prim.Native.Nat.{
  ℕ, zero, suc, ◌+◌, ◌-◌, ◌*◌, ◌/◌, ◌%◌, ◌^◌, ◌≤◌, ◌<◌, min, max, bit_and, bit_or,
}
use mathlib.Core.Path.{◌≡◌, refl, ◌∙◌}
use mathlib.Core.Logic.{◌≢◌}
use native.Mathlib.Nat.{pow-suc, one-le-pow}
use native.Mathlib.Omega.{arith}

module _ (over : ℕ → ℕ) (op : ℕ → ℕ → ℕ) where
  -- Fuel beyond the first operand makes no difference.
  one_more : (fuel x y : ℕ) → x ≤ fuel → digits over op (suc fuel) x y ≡ digits over op fuel x y
  one_more zero zero y le = refl
  one_more zero (suc x) y le = absurd (omega arith)
  one_more (suc fuel) zero y le = refl
  one_more (suc fuel) (suc x) y le = omega (arith, one_more fuel (suc x / 2) (y / 2) (omega arith))

  trim : (spare fuel x y : ℕ) → fuel ≡ x + spare → digits over op fuel x y ≡ digits over op x x y
  trim zero fuel x y e = let same : fuel ≡ x = omega arith in rw same
  trim (suc spare) zero x y e = absurd (omega arith)
  trim (suc spare) (suc fuel) x y e =
      one_more fuel x y (omega arith) ∙ trim spare fuel x y (omega arith)

  digits-halves :
      (x y : ℕ)
      → digits over op (suc x) (suc x) y
        ≡ 2 * digits over op (suc x / 2) (suc x / 2) (y / 2) + op (suc x % 2) (y % 2)
  digits-halves x y = omega (arith, trim (x - suc x / 2) x (suc x / 2) (y / 2) (omega arith))

zero-bit_and : (y : ℕ) → bit_and 0 y ≡ 0
zero-bit_and y = bit_and-bitwise 0 y

zero-bit_or : (y : ℕ) → bit_or 0 y ≡ y
zero-bit_or y = bit_or-bitwise 0 y

-- `&` and `|` by the lowest bit and the rest.
pub bit_and-halves : (x y : ℕ) → bit_and x y ≡ 2 * bit_and (x / 2) (y / 2) + min (x % 2) (y % 2)
bit_and-halves zero y = omega (arith, zero-bit_and (y / 2), zero-bit_and y)
bit_and-halves (suc x) y = omega (
  arith,
  digits-halves (λ _. 0) min x y,
  bit_and-bitwise (suc x / 2) (y / 2),
  bit_and-bitwise (suc x) y,
)

pub bit_or-halves : (x y : ℕ) → bit_or x y ≡ 2 * bit_or (x / 2) (y / 2) + max (x % 2) (y % 2)
bit_or-halves zero y = omega (arith, zero-bit_or (y / 2), zero-bit_or y)
bit_or-halves (suc x) y = omega (
  arith,
  digits-halves (λ rest. rest) max x y,
  bit_or-bitwise (suc x / 2) (y / 2),
  bit_or-bitwise (suc x) y,
)

-- An operand of no bits.
pub bit_and-zero : (w x : ℕ) → x < 2 ^ w → bit_and x 0 ≡ 0
bit_and-zero zero x h = let none : x ≡ 0 = omega arith in rw none (zero-bit_and 0)
bit_and-zero (suc w) x h =
    omega (arith, bit_and-halves x 0, bit_and-zero w (x / 2) (omega (arith, pow-suc 2 w)))

pub bit_or-zero : (w x : ℕ) → x < 2 ^ w → bit_or x 0 ≡ x
bit_or-zero zero x h = let none : x ≡ 0 = omega arith in rw none (zero-bit_or 0)
bit_or-zero (suc w) x h =
    omega (arith, bit_or-halves x 0, bit_or-zero w (x / 2) (omega (arith, pow-suc 2 w)))

-- Bit `i` of a word, as 0 or 1.
unfoldable pub bit : ℕ → ℕ → ℕ
bit a zero = a % 2
bit a (suc i) = bit (a / 2) i

pub bit-le_one : (a i : ℕ) → bit a i ≤ 1
unfolding bit
bit-le_one a zero = omega arith
bit-le_one a (suc i) = bit-le_one (a / 2) i

half-bit_and : (a b : ℕ) → bit_and a b / 2 ≡ bit_and (a / 2) (b / 2)
half-bit_and a b = omega (arith, bit_and-halves a b)

half-bit_or : (a b : ℕ) → bit_or a b / 2 ≡ bit_or (a / 2) (b / 2)
half-bit_or a b = omega (arith, bit_or-halves a b)

-- `&` and `|`, bit by bit.
pub bit-bit_and : (a b i : ℕ) → bit (bit_and a b) i ≡ min (bit a i) (bit b i)
unfolding bit
bit-bit_and a b zero = omega (arith, bit_and-halves a b)
bit-bit_and a b (suc i) = rw half-bit_and (bit-bit_and (a / 2) (b / 2) i)

pub bit-bit_or : (a b i : ℕ) → bit (bit_or a b) i ≡ max (bit a i) (bit b i)
unfolding bit
bit-bit_or a b zero = omega (arith, bit_or-halves a b)
bit-bit_or a b (suc i) = rw half-bit_or (bit-bit_or (a / 2) (b / 2) i)

pub bit-zero : (i : ℕ) → bit 0 i ≡ 0
unfolding bit
bit-zero zero = refl
bit-zero (suc i) = bit-zero i

-- `!a` in `w` bits.
pub bit-complement : (w a i : ℕ) → a < 2 ^ w → i < w → bit (2 ^ w - 1 - a) i + bit a i ≡ 1
unfolding bit
bit-complement zero a i h lt = absurd (omega arith)
bit-complement (suc w) a zero h lt = omega (arith, pow-suc 2 w)
bit-complement (suc w) a (suc i) h lt =
    let half : (2 ^ suc w - 1 - a) / 2 ≡ 2 ^ w - 1 - a / 2 = omega (arith, pow-suc 2 w) in
    rw half (bit-complement w (a / 2) i (omega (arith, pow-suc 2 w)) (omega arith))

-- `1 << k` has bit `k` alone.
pub bit-pow_self : (k : ℕ) → bit (2 ^ k) k ≡ 1
unfolding bit
bit-pow_self zero = refl
bit-pow_self (suc k) =
    let half : 2 ^ suc k / 2 ≡ 2 ^ k = omega (arith, pow-suc 2 k) in rw half (bit-pow_self k)

pub bit-pow_ne : (k i : ℕ) → i ≢ k → bit (2 ^ k) i ≡ 0
unfolding bit
bit-pow_ne zero zero h = absurd (h refl)
bit-pow_ne zero (suc i) h = bit-zero i
bit-pow_ne (suc k) zero h = omega (arith, pow-suc 2 k)
bit-pow_ne (suc k) (suc i) h =
    let half : 2 ^ suc k / 2 ≡ 2 ^ k = omega (arith, pow-suc 2 k) in
    rw half (bit-pow_ne k i (omega arith))

-- `!0 << s` in `w` bits has the bits from `s` on.
pub bit-mask_ge : (w s i : ℕ) → s ≤ i → i < w → bit (2 ^ w - 2 ^ s) i ≡ 1
unfolding bit
bit-mask_ge zero s i h lt = absurd (omega arith)
bit-mask_ge (suc w) zero zero h lt = omega (arith, pow-suc 2 w, one-le-pow w 2)
bit-mask_ge (suc w) zero (suc i) h lt =
    let half : (2 ^ suc w - 2 ^ 0) / 2 ≡ 2 ^ w - 2 ^ 0 =
      omega (arith, pow-suc 2 w, one-le-pow w 2) in
    rw half (bit-mask_ge w 0 i (omega arith) (omega arith))
bit-mask_ge (suc w) (suc s) zero h lt = absurd (omega arith)
bit-mask_ge (suc w) (suc s) (suc i) h lt =
    let half : (2 ^ suc w - 2 ^ suc s) / 2 ≡ 2 ^ w - 2 ^ s =
      omega (arith, pow-suc 2 w, pow-suc 2 s) in
    rw half (bit-mask_ge w s i (omega arith) (omega arith))

pub bit-mask_lt : (w s i : ℕ) → i < s → s ≤ w → bit (2 ^ w - 2 ^ s) i ≡ 0
unfolding bit
bit-mask_lt w zero i h le = absurd (omega arith)
bit-mask_lt zero (suc s) i h le = absurd (omega arith)
bit-mask_lt (suc w) (suc s) zero h le = omega (arith, pow-suc 2 w, pow-suc 2 s)
bit-mask_lt (suc w) (suc s) (suc i) h le =
    let half : (2 ^ suc w - 2 ^ suc s) / 2 ≡ 2 ^ w - 2 ^ s =
      omega (arith, pow-suc 2 w, pow-suc 2 s) in
    rw half (bit-mask_lt w s i (omega arith) (omega arith))

pub eq-zero_of_bits : (w a : ℕ) → a < 2 ^ w → ((i : ℕ) → i < w → bit a i ≡ 0) → a ≡ 0
unfolding bit
eq-zero_of_bits zero a h z = omega arith
eq-zero_of_bits (suc w) a h z = omega (
  arith,
  z 0 (omega arith),
  eq-zero_of_bits w (a / 2) (omega (arith, pow-suc 2 w)) λ i lt. z (suc i) (omega arith),
)

bit_and_zero_left : (a b : ℕ) → a ≡ 0 → bit_and a b ≡ 0
bit_and_zero_left a b e = rw e (zero-bit_and b)

pub bit_and-lt : (w a b : ℕ) → a < 2 ^ w → bit_and a b < 2 ^ w
bit_and-lt zero a b h =
    omega (arith, bit_and-halves a b, bit_and_zero_left (a / 2) (b / 2) (omega arith))
bit_and-lt (suc w) a b h = omega (
  arith,
  pow-suc 2 w,
  bit_and-halves a b,
  bit_and-lt w (a / 2) (b / 2) (omega (arith, pow-suc 2 w)),
)

pub bit_or-lt : (w a b : ℕ) → a < 2 ^ w → b < 2 ^ w → bit_or a b < 2 ^ w
bit_or-lt zero zero b h k = omega (arith, zero-bit_or b)
bit_or-lt zero (suc a) b h k = absurd (omega arith)
bit_or-lt (suc w) a b h k = omega (
  arith,
  pow-suc 2 w,
  bit_or-halves a b,
  bit_or-lt w (a / 2) (b / 2) (omega (arith, pow-suc 2 w)) (omega (arith, pow-suc 2 w)),
)

pub bit_and-ones : (w a : ℕ) → a < 2 ^ w → bit_and a (2 ^ w - 1) ≡ a
bit_and-ones zero a h = omega (arith, bit_and_zero_left a (2 ^ 0 - 1) (omega arith))
bit_and-ones (suc w) a h =
    let half : (2 ^ suc w - 1) / 2 ≡ 2 ^ w - 1 = omega (arith, pow-suc 2 w, one-le-pow w 2) in
    let rest : bit_and (a / 2) ((2 ^ suc w - 1) / 2) ≡ a / 2 =
      rw half (bit_and-ones w (a / 2) (omega (arith, pow-suc 2 w))) in
    omega (arith, pow-suc 2 w, one-le-pow w 2, bit_and-halves a (2 ^ suc w - 1), rest)

field-suc : (high k : ℕ) → 2 * (high * 2 ^ k) ≡ high * 2 ^ suc k
field-suc high k = let grow = pow-suc 2 k in grind arith

bit_and-high_fields :
    (w k q r : ℕ)
    → k ≤ w
    → r < 2 ^ k
    → q * 2 ^ k + r < 2 ^ w
    → bit_and (q * 2 ^ k + r) (2 ^ w - 2 ^ k) ≡ q * 2 ^ k
bit_and-high_fields w zero q r le h fits =
    let e : q * 2 ^ 0 + r ≡ q * 2 ^ 0 = omega arith in
    rw e (bit_and-ones w (q * 2 ^ 0) (omega arith))
bit_and-high_fields zero (suc k) q r le h fits = absurd (omega arith)
bit_and-high_fields (suc w) (suc k) q r le h fits =
    let a : ℕ = q * 2 ^ suc k + r in
    let half : (2 ^ suc w - 2 ^ suc k) / 2 ≡ 2 ^ w - 2 ^ k =
      omega (arith, pow-suc 2 w, pow-suc 2 k) in
    let half_a : a / 2 ≡ q * 2 ^ k + r / 2 = omega (arith, field-suc q k) in
    let rest : bit_and (a / 2) ((2 ^ suc w - 2 ^ suc k) / 2) ≡ q * 2 ^ k =
      rw (half, half_a)
        (bit_and-high_fields w k q (r / 2) (omega arith) (omega (arith, pow-suc 2 k))
          (omega (arith, pow-suc 2 w))) in
    omega (
      arith,
      pow-suc 2 w,
      pow-suc 2 k,
      field-suc q k,
      bit_and-halves a (2 ^ suc w - 2 ^ suc k),
      rest,
    )

-- `a & !(2 ^ k - 1)` in `w` bits drops the `k` low bits.
pub bit_and-high : (w k a : ℕ) → k ≤ w → a < 2 ^ w → bit_and a (2 ^ w - 2 ^ k) ≡ a / 2 ^ k * 2 ^ k
bit_and-high w k a le fits =
    let e : a / 2 ^ k * 2 ^ k + a % 2 ^ k ≡ a = grind arith in
    rw e at (
      bit_and-high_fields w k (a / 2 ^ k) (a % 2 ^ k) le (omega (arith, one-le-pow k 2))
        (rw e fits))
