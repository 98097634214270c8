-- ===== src/Tlsf/Mapping/Search.antt =====
-- `mapping_search` of src/tlsf.rs: the first bin all of whose sizes are large enough.
use native.Mathlib.Nat.{pow-suc, pow-le-pow_right, one-le-pow}
use ferrum_alloc.Base.{
  ℕ, ◌+◌, ◌-◌, ◌*◌, ◌^◌, ◌≤◌, ◌<◌, ◌≡◌, ◌⊎◌, inl, inr, min, true, false, arith, dec_lt, ltb,
  if◌then◌else◌, Bool-cases,
}
use ferrum_alloc.Base.Word.{IsLog}
use ferrum_alloc.Tlsf.Mapping.{sl_count, fl_count, fl_max, log2, mapping, mapping_search}
use ferrum_alloc.Tlsf.Mapping.Bins.{
  InBin, Before, log2-IsLog, sub_size-four, bins_apart, Before-le, pow-add_four, mapping-InBin_self,
}

-- Every size of bin `(f, l)` is at least `size`, and no earlier bin is such.
pub record IsFirstFit (size f l : ℕ) : Type 0 where
  pub second : l < sl_count
  pub enough : size ≤ (16 + l) * 2 ^ f
  pub least : (g m : ℕ) → m < sl_count → size ≤ (16 + m) * 2 ^ g → ¬ Before g m f l

module _ (size f : ℕ) (log : IsLog size (f + 4)) where
  round_low : 16 * 2 ^ f ≤ size
  round_low = omega (arith, log.lower, pow-add_four f)

  round_high : size < 32 * 2 ^ f
  round_high = omega (arith, log.upper, pow-suc 2 (f + 4), pow-add_four f)

-- The rounded size lies in the first bin that starts at `size` or above.
module _ (size f : ℕ) (log : IsLog size (f + 4)) (g l : ℕ)
    (bin : InBin g l (size + 2 ^ f - 1)) where
  round-enough : size ≤ (16 + l) * 2 ^ g
  round-enough = elim (dec_lt f g) [
    | yes above ↦ omega (arith, round_high size f log, bins_apart f g 15 l above (omega arith))
    | no low ↦ elim (dec_lt g f) [
      | yes below ↦ omega (
        arith,
        round_low size f log,
        bin.upper,
        one-le-pow f 2,
        bins_apart g f l 0 below bin.second,
      )
      | no high ↦
          let same : g ≡ f = omega arith in
          let upper : size + 2 ^ f - 1 < (17 + l) * 2 ^ f = rw same at bin.upper in
          rw same (omega (arith, one-le-pow f 2))
    ]
  ]

  round-least : (h m : ℕ) → m < 16 → size ≤ (16 + m) * 2 ^ h → ¬ Before h m g l
  round-least h m small fits before =
      let next : (17 + m) * 2 ^ h ≤ (16 + l) * 2 ^ g = Before-le small before in
      elim (dec_lt h f) [
        | yes below ↦
            omega (arith, round_low size f log, one-le-pow h 2, bins_apart h f m 0 below small)
        | no above ↦
            let wide : 2 ^ f ≤ 2 ^ h =
              pow-le-pow_right {n = 2} (omega arith) {i = f} (omega arith) in
            omega (arith, bin.lower, one-le-pow f 2)
      ]

mapping-first : (a : ℕ) → 4 ≤ log2 a → log2 a < 64 → (mapping a).0 ≡ log2 a - 4
unfolding mapping
mapping-first a h k = sub_size-four (log2 a) h k

-- The size that the search rounds up to.
abbrev rounded : ℕ → ℕ
rounded size = size + 2 ^ (log2 size - 4) - 1

module _ (size : ℕ) (h : 16 ≤ size) (k : size < 2 ^ 60) where
  log : IsLog size (log2 size - 4 + 4)
  log = (log2-IsLog size h (omega arith)).1

  rounded_lt : rounded size < 2 ^ 64
  rounded_lt = omega (arith, round_low size (log2 size - 4) log)

  rounded_ge : 16 ≤ rounded size
  rounded_ge = omega (arith, one-le-pow (log2 size - 4) 2)

  saturate : min (size + (2 ^ (log2 size - 4) - 1)) (2 ^ 64 - 1) ≡ rounded size
  saturate = omega (arith, rounded_lt, one-le-pow (log2 size - 4) 2)

  mapping_search-mapping :
      mapping_search size
      ≡ (if ltb fl_max (log2 (rounded size)) then (fl_count, 0) else mapping (rounded size))
  unfolding mapping_search mapping
  mapping_search-mapping = rw saturate

  mapping-IsFirstFit : IsFirstFit size (mapping (rounded size)).0 (mapping (rounded size)).1
  mapping-IsFirstFit =
      let bin = mapping-InBin_self (rounded size) rounded_ge rounded_lt in
      record {
        second = bin.second;
        enough = round-enough size (log2 size - 4) log _ _ bin;
        least = round-least size (log2 size - 4) log _ _ bin;
      }

  mapping_search-cases :
      (ltb fl_max (log2 (rounded size)) ≡ true) × (mapping_search size ≡ (fl_count, 0))
      ⊎ (ltb fl_max (log2 (rounded size)) ≡ false) × (mapping_search size ≡ mapping (rounded size))
  mapping_search-cases = elim (Bool-cases (ltb fl_max (log2 (rounded size)))) [
    | inl far ↦ inl (far, rw (mapping_search-mapping, far))
    | inr near ↦ inr (near, rw (mapping_search-mapping, near))
  ]

  -- For a size from 16 up to `2 ^ 60`, a search that stays inside the table starts at the first
  -- bin all of whose sizes are large enough.
  pub mapping_search-IsFirstFit :
      (mapping_search size).0 < fl_count
      → IsFirstFit size (mapping_search size).0 (mapping_search size).1
  mapping_search-IsFirstFit found = elim mapping_search-cases [
    | inl (far, e) ↦ absurd (ground arith)
    | inr (near, e) ↦ rw e mapping-IsFirstFit
  ]

  -- For a size from 16 up to `2 ^ 60`, the search leaves the table only when every bin of the
  -- table starts below the size.
  pub mapping_search-too_large :
      fl_count ≤ (mapping_search size).0
      → (f l : ℕ) → f < fl_count
      → l < sl_count
      → (16 + l) * 2 ^ f < size
  mapping_search-too_large out f l hf hl = elim (dec_lt ((16 + l) * 2 ^ f) size) [
    | yes below ↦ below
    | no above ↦
        let (lt, _, four) = log2-IsLog (rounded size) rounded_ge rounded_lt in
        let first = mapping-first (rounded size) four lt in
        elim mapping_search-cases [
          | inl (far, e) ↦
              absurd (mapping-IsFirstFit.least f l hl (omega arith) (inl (ground arith)))
          | inr (near, e) ↦ absurd (ground arith)
        ]
  ]
