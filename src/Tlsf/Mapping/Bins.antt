-- ===== src/Tlsf/Mapping/Bins.antt =====
-- The bins of src/tlsf.rs as intervals of sizes, and `mapping` as the bin of a size.
use native.Mathlib.Nat.{pow-suc, pow-le-pow_right}
use native.Mathlib.Numerals.{towards_suc}
use ferrum_alloc.Base.{
  ℕ, zero, suc, ◌+◌, ◌-◌, ◌*◌, ◌/◌, ◌^◌, ◌≤◌, ◌<◌, ◌≡◌, refl, ◌↔◌, ◌⊎◌, inl, inr, sym, subst, true,
  bit_xor, arith, dec_lt, ◌==◌, ltb, ◌||◌, all_below, all_below_sound,
}
use ferrum_alloc.Base.Word.{IsLog, leading_zeros-IsLog, sub_size}
use ferrum_alloc.Tlsf.Mapping.{sl_count, fl_count, log2, mapping}

-- Bin `(f, l)` holds the sizes from `(16 + l) * 2 ^ f` up to the next bin.
pub record InBin (f l size : ℕ) : Type 0 where
  pub second : l < sl_count
  pub lower : (16 + l) * 2 ^ f ≤ size
  pub upper : size < (17 + l) * 2 ^ f

pub log-ge_four : (a l : ℕ) → 16 ≤ a → IsLog a l → 4 ≤ l
log-ge_four a zero h i = absurd (ground arith)
log-ge_four a (suc zero) h i = absurd (ground arith)
log-ge_four a (suc (suc zero)) h i = absurd (ground arith)
log-ge_four a (suc (suc (suc zero))) h i = absurd (ground arith)
log-ge_four a (suc (suc (suc (suc l)))) h i = omega arith

xor_table : all_below 32 (λ q. ltb q 16 || (bit_xor q 16 == q - 16)) ≡ true
unfolding all_below
xor_table = refl

pub bit_xor-sl_count : (q : ℕ) → 16 ≤ q → q < 32 → bit_xor q 16 ≡ q - 16
bit_xor-sl_count q h k =
    ground (arith, all_below_sound 32 (λ q. ltb q 16 || (bit_xor q 16 == q - 16)) q xor_table)

-- The leading digits of a size, with `p` the width of a bin.
module _ (a p : ℕ) (low : 16 * p ≤ a) (high : a < 32 * p) where
  quotient_low : a / p * p ≤ a
  quotient_low = grind arith

  quotient_high : a < (a / p + 1) * p
  quotient_high = grind arith

  quotient_ge : 16 ≤ a / p
  quotient_ge = grind (arith, quotient_high)

  quotient_lt : a / p < 32
  quotient_lt = grind (arith, quotient_low)

  quotient_fields : ((16 + (a / p - 16)) * p ≤ a) × (a < (17 + (a / p - 16)) * p)
  quotient_fields =
      let back : 16 + (a / p - 16) ≡ a / p = omega (arith, quotient_ge) in
      let next : 17 + (a / p - 16) ≡ a / p + 1 = omega (arith, quotient_ge) in
      (rw back quotient_low, rw next quotient_high)

pub pow-add_four : (f : ℕ) → 2 ^ (f + 4) ≡ 16 * 2 ^ f
pow-add_four f = simp towards_suc (
    omega (
      arith,
      pow-suc 2 f,
      pow-suc 2 (suc f),
      pow-suc 2 (suc (suc f)),
      pow-suc 2 (suc (suc (suc f))),
    ))

-- The shift and the exclusive or place a size within its power of two.
pub InBin-of_log : (a f : ℕ) → IsLog a (f + 4) → InBin f (bit_xor (a / 2 ^ f) 16) a
InBin-of_log a f i =
    let low : 16 * 2 ^ f ≤ a = omega (arith, i.lower, pow-add_four f) in
    let high : a < 32 * 2 ^ f = omega (arith, i.upper, pow-suc 2 (f + 4), pow-add_four f) in
    let (lower, upper) = quotient_fields a (2 ^ f) low high in
    let x : bit_xor (a / 2 ^ f) 16 ≡ a / 2 ^ f - 16 =
      bit_xor-sl_count (a / 2 ^ f) (quotient_ge a (2 ^ f) low high)
        (quotient_lt a (2 ^ f) low high) in
    rw x (record {
      second = omega (arith, quotient_lt a (2 ^ f) low high);
      lower = lower;
      upper = upper;
    })

-- A bin starts at or above the end of each bin that comes before it in the first level.
pub bins_apart : (f g l m : ℕ) → f < g → l < 16 → (17 + l) * 2 ^ f ≤ (16 + m) * 2 ^ g
bins_apart f g l m h small =
    let grow : 2 * 2 ^ f ≤ 2 ^ g =
      omega (arith, pow-suc 2 f, pow-le-pow_right {n = 2} (omega arith) h) in
    let scaled : 16 * (2 * 2 ^ f) ≤ (16 + m) * 2 ^ g = grind arith in
    let wide : (17 + l) * 2 ^ f ≤ 32 * 2 ^ f = grind arith in omega arith

-- The order of the bins, first level first.
abbrev pub Before : (f l g m : ℕ) → Type 0
Before f l g m = (f < g) ⊎ ((f ≡ g) × (l < m))

pub Before-le : {f l g m : ℕ} → l < sl_count → Before f l g m → (17 + l) * 2 ^ f ≤ (16 + m) * 2 ^ g
Before-le {f} {l} {g} {m} small (inl h) = bins_apart f g l m h small
Before-le {f} {l} {g} {m} small (inr (e, h)) =
    let step : (17 + l) * 2 ^ f ≤ (16 + m) * 2 ^ f = grind arith in rw (sym e) step

-- Sizes in an earlier bin are smaller.
pub InBin-lt : {f l a g m b : ℕ} → InBin f l a → InBin g m b → Before f l g m → a < b
InBin-lt i j before = omega (arith, i.upper, j.lower, Before-le i.second before)

pub log2-IsLog :
    (a : ℕ) → 16 ≤ a → a < 2 ^ 64 → (log2 a < 64) × IsLog a (log2 a - 4 + 4) × (4 ≤ log2 a)
log2-IsLog a h k =
    let (lt, log) = leading_zeros-IsLog 64 a (omega arith) k in
    let four : 4 ≤ log2 a = log-ge_four a (log2 a) h log in
    let back : log2 a - 4 + 4 ≡ log2 a = omega arith in (omega arith, rw back log, four)

pub sub_size-four : (k : ℕ) → 4 ≤ k → k < 64 → sub_size k 4 ≡ k - 4
sub_size-four k h lt = omega arith

pub mapping-InBin_self :
    (size : ℕ) → 16 ≤ size → size < 2 ^ 64 → InBin (mapping size).0 (mapping size).1 size
unfolding mapping
mapping-InBin_self size h k =
    let (lt, log, four) = log2-IsLog size h k in
    rw (sub_size-four (log2 size) four lt) (InBin-of_log size (log2 size - 4) log)

not-Before : {f l g m a : ℕ} → InBin f l a → InBin g m a → ¬ Before f l g m
not-Before i j b = omega (arith, InBin-lt i j b)

pub InBin-unique : {f l g m a : ℕ} → InBin f l a → InBin g m a → (f ≡ g) × (l ≡ m)
InBin-unique {f} {l} {g} {m} i j =
    let first : f ≡ g = elim (dec_lt f g) [
      | yes below ↦ absurd (not-Before i j (inl below))
      | no above ↦ elim (dec_lt g f) [
        | yes below ↦ absurd (not-Before j i (inl below))
        | no same ↦ omega arith
      ]
    ] in
    let second : l ≡ m = elim (dec_lt l m) [
      | yes below ↦ absurd (not-Before i j (inr (first, below)))
      | no above ↦ elim (dec_lt m l) [
        | yes below ↦ absurd (not-Before j i (inr (sym first, below)))
        | no same ↦ omega arith
      ]
    ] in
    (first, second)

-- `mapping` sends a size of at least 16 bytes and below `2 ^ 64` to bin `(f, l)` exactly when the
-- size lies in the interval of that bin.
pub mapping-InBin :
    (size f l : ℕ) → 16 ≤ size → size < 2 ^ 64 → (mapping size ≡ (f, l)) ↔ InBin f l size
mapping-InBin size f l h k = (
  λ e. subst (λ (p : ℕ × ℕ). InBin p.0 p.1 size) e (mapping-InBin_self size h k),
  λ i. ground (arith, InBin-unique (mapping-InBin_self size h k) i),
)

-- A size in a bin past the table is at least `2 ^ 22`.
first-lt : {f l a : ℕ} → InBin f l a → a < 2 ^ 22 → f < 18
first-lt {f} {l} i h = elim (dec_lt f 18) [
  | yes lt ↦ lt
  | no ge ↦
      let grow : 2 ^ 18 ≤ 2 ^ f = pow-le-pow_right {n = 2} (omega arith) {i = 18} (omega arith) in
      let scaled : 16 * 2 ^ 18 ≤ (16 + l) * 2 ^ f = grind arith in absurd (omega (arith, i.lower))
]

-- The sizes from 16 up to `2 ^ 22` have bins inside the 18 × 16 table.
pub mapping-lt :
    (size : ℕ)
    → 16 ≤ size
    → size < 2 ^ 22
    → ((mapping size).0 < fl_count) × ((mapping size).1 < sl_count)
mapping-lt size h k = let i = mapping-InBin_self size h (omega arith) in (first-lt i k, i.second)
