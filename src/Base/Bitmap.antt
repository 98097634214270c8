-- ===== src/Base/Bitmap.antt =====
-- A `u32` as a set of small numbers: setting, clearing and masking bits.
use Prim.Native.Nat.{ℕ, ◌-◌, ◌^◌, ◌≤◌, ◌<◌, bit_and, bit_or}
use mathlib.Core.Path.{◌≡◌}
use native.Mathlib.Nat.{pow-le-pow_right, one-le-pow}
use native.Mathlib.Omega.{arith}
use ferrum_alloc.Base.Tests.{◌==◌, leb, if◌then◌else◌}
use ferrum_alloc.Base.Bits.{
  bit, bit-le_one, bit-zero, bit_and-lt, bit-bit_and, bit-bit_or, bit-complement, bit-pow_self,
  bit-pow_ne, bit-mask_ge, bit-mask_lt,
}
use ferrum_alloc.Base.Word.{
  shl_u32, not_u32, trailing_zeros, trailing_zeros-bit, bit-lt-trailing_zeros,
}
use mathlib.Core.Logic.{◌≢◌}

pub pow-lt_u32 : (k : ℕ) → k < 32 → 2 ^ k < 2 ^ 32
pow-lt_u32 k h =
    let top : 2 ^ k ≤ 2 ^ 31 = pow-le-pow_right {n = 2} (omega arith) {j = 31} (omega arith) in
    omega arith

pub shl_u32-one : (k : ℕ) → k < 32 → shl_u32 1 k ≡ 2 ^ k
shl_u32-one k h = omega (arith, pow-lt_u32 k h)

-- `!0 << s`
pub shl_u32-ones : (s : ℕ) → s < 32 → shl_u32 (2 ^ 32 - 1) s ≡ 2 ^ 32 - 2 ^ s
shl_u32-ones s h = omega (arith, pow-lt_u32 s h, one-le-pow s 2)

pub bit-set :
    (m k i : ℕ) → k < 32 → bit (bit_or m (shl_u32 1 k)) i ≡ (if i == k then 1 else bit m i)
bit-set m k i h =
    rw (shl_u32-one k h, bit-bit_or)
      (ground (arith, bit-pow_self k, bit-pow_ne k i, bit-le_one m i))

pub bit-clear :
    (m k i : ℕ)
    → k < 32
    → i < 32
    → bit (bit_and m (not_u32 (shl_u32 1 k))) i ≡ (if i == k then 0 else bit m i)
bit-clear m k i h g =
    rw (shl_u32-one k h, bit-bit_and)
      (ground (
        arith,
        bit-complement 32 (2 ^ k) i (pow-lt_u32 k h) g,
        bit-pow_self k,
        bit-pow_ne k i,
        bit-le_one m i,
      ))

pub bit-from :
    (m s i : ℕ)
    → s < 32
    → i < 32
    → bit (bit_and m (shl_u32 (2 ^ 32 - 1) s)) i ≡ (if leb s i then bit m i else 0)
bit-from m s i h g =
    rw (shl_u32-ones s h, bit-bit_and)
      (ground (arith, bit-mask_ge 32 s i, bit-mask_lt 32 s i, bit-le_one m i))

-- `x & (!0 << s)`
abbrev pub from_bit : ℕ → ℕ → ℕ
from_bit m s = bit_and m (shl_u32 (2 ^ 32 - 1) s)

-- `k` is the first bit of `m` at `s` or above.
pub record IsFirstFrom (m s k : ℕ) : Type 0 where
  pub small : k < 32
  pub above : s ≤ k
  pub set : bit m k ≡ 1
  pub clear : (i : ℕ) → s ≤ i → i < k → bit m i ≡ 0

pub trailing_zeros-IsFirstFrom :
    (m s : ℕ)
    → m < 2 ^ 32
    → s < 32
    → from_bit m s ≢ 0
    → IsFirstFrom m s (trailing_zeros 32 (from_bit m s))
trailing_zeros-IsFirstFrom m s h lt ne =
    let k : ℕ = trailing_zeros 32 (from_bit m s) in
    let (small, set) = trailing_zeros-bit 32 (from_bit m s) ne (bit_and-lt 32 m _ h) in
    record {
      small = small;
      above = ground (arith, bit-from m s k);
      set = ground (arith, bit-from m s k);
      clear = λ i a b. ground (arith, bit-from m s i, bit-lt-trailing_zeros 32 (from_bit m s) i);
    }

pub trailing_zeros-IsFirst : (m : ℕ) → m < 2 ^ 32 → m ≢ 0 → IsFirstFrom m 0 (trailing_zeros 32 m)
trailing_zeros-IsFirst m h ne =
    let (small, set) = trailing_zeros-bit 32 m ne h in
    record {
      small = small;
      above = omega arith;
      set = set;
      clear = λ i a b. bit-lt-trailing_zeros 32 m i b;
    }

pub clear_of_from_bit : (m s i : ℕ) → s < 32 → from_bit m s ≡ 0 → s ≤ i → i < 32 → bit m i ≡ 0
clear_of_from_bit m s i h e a b =
    let none_set : bit (from_bit m s) i ≡ 0 = rw e (bit-zero i) in ground (arith, bit-from m s i)
