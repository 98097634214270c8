-- ===== src/Base/Word.antt =====
-- The `usize` and `u32` operations that the allocators use.
use Prim.Native.Nat.{ℕ, zero, suc, ◌+◌, ◌-◌, ◌*◌, ◌/◌, ◌%◌, ◌^◌, ◌≤◌, ◌<◌}
use mathlib.Core.Path.{◌≡◌}
use mathlib.Core.Logic.{◌≢◌, inl, inr}
use native.Mathlib.Nat.{pow-suc}
use native.Mathlib.Omega.{arith}
use ferrum_alloc.Base.Tests.{◌==◌, leb, if◌then◌else◌, Bool-cases, leb→le}
use ferrum_alloc.Base.Bits.{bit}

-- `usize` arithmetic of a release build wraps.
abbrev pub add_size : ℕ → ℕ → ℕ
add_size a b = (a + b) % 2 ^ 64

abbrev pub sub_size : ℕ → ℕ → ℕ
sub_size a b = (a + 2 ^ 64 - b) % 2 ^ 64

-- `!a` of a `usize` and of a `u32`.
abbrev pub not_size : ℕ → ℕ
not_size a = 2 ^ 64 - 1 - a

abbrev pub not_u32 : ℕ → ℕ
not_u32 a = 2 ^ 32 - 1 - a

-- `a << k` of a `u32` at `k < 32`, and `a >> k`.
abbrev pub shl_u32 : ℕ → ℕ → ℕ
shl_u32 a k = a * 2 ^ k % 2 ^ 32

abbrev pub shr : ℕ → ℕ → ℕ
shr a k = a / 2 ^ k

-- `leading_zeros` of a `w`-bit number.
unfoldable pub leading_zeros : ℕ → ℕ → ℕ
leading_zeros zero a = 0
leading_zeros (suc w) a = let rest = leading_zeros w a in if leb (2 ^ w) a then 0 else suc rest

-- `trailing_zeros` of a `w`-bit number.
unfoldable pub trailing_zeros : ℕ → ℕ → ℕ
trailing_zeros zero a = 0
trailing_zeros (suc w) a = let rest = trailing_zeros w (a / 2) in if a % 2 == 1 then 0 else suc rest

-- `l` is the number of binary digits of `a` less one.
pub record IsLog (a l : ℕ) : Type 0 where
  pub lower : 2 ^ l ≤ a
  pub upper : a < 2 ^ suc l

-- `w - 1 - a.leading_zeros()` is the logarithm of `a`.
pub leading_zeros-IsLog :
    (w a : ℕ) → 0 < a → a < 2 ^ w → (leading_zeros w a < w) × IsLog a (w - 1 - leading_zeros w a)
unfolding leading_zeros
leading_zeros-IsLog zero a pos h = absurd (omega arith)
leading_zeros-IsLog (suc w) a pos h = elim (Bool-cases (leb (2 ^ w) a)) [
  | inl top ↦
      (let top_log : suc w - 1 - 0 ≡ w = omega arith in
        rw top (omega arith, rw top_log (record { lower = leb→le _ _ top; upper = h })))
  | inr low ↦
      (let (lt, log) = leading_zeros-IsLog w a pos (ground arith) in
        let same : suc w - 1 - suc (leading_zeros w a) ≡ w - 1 - leading_zeros w a = omega arith in
        rw low (omega arith, rw same log))
]

module _ where
  -- The first bit that is set, of a number that is not 0.
  pub trailing_zeros-bit :
      (w a : ℕ) → a ≢ 0 → a < 2 ^ w → (trailing_zeros w a < w) × (bit a (trailing_zeros w a) ≡ 1)
  unfolding trailing_zeros bit
  trailing_zeros-bit zero a ne h = absurd (omega arith)
  trailing_zeros-bit (suc w) a ne h = elim (Bool-cases (a % 2 == 1)) [
    | inl odd ↦ rw odd (omega arith, ground arith)
    | inr even ↦ rw even (
        let (lt, set) = trailing_zeros-bit w (a / 2) (ground arith) (omega (arith, pow-suc 2 w)) in
        (omega arith, set))
  ]

  pub bit-lt-trailing_zeros : (w a i : ℕ) → i < trailing_zeros w a → bit a i ≡ 0
  unfolding trailing_zeros bit
  bit-lt-trailing_zeros zero a i h = absurd (omega arith)
  bit-lt-trailing_zeros (suc w) a zero h = ground arith
  bit-lt-trailing_zeros (suc w) a (suc i) h = ground (arith, bit-lt-trailing_zeros w (a / 2) i)
