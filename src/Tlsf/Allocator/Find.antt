-- ===== src/Tlsf/Allocator/Find.antt =====
-- The search of `find_suitable` in src/tlsf.rs: the first list in use whose blocks are all large
-- enough, and a failure only when there is none.
use ferrum_alloc.Base.{
  ℕ, ◌+◌, ◌*◌, ◌^◌, ◌≤◌, ◌<◌, ◌≡◌, ◌≢◌, refl, arith, ◌==◌, leb, dec_lt, Bool-cases, ◌⊎◌, inl, inr,
}
use ferrum_alloc.Base.Bits.{bit}
use ferrum_alloc.Base.Bitmap.{
  from_bit, IsFirstFrom, trailing_zeros-IsFirstFrom, trailing_zeros-IsFirst, clear_of_from_bit,
}
use ferrum_alloc.Base.Word.{trailing_zeros}
use ferrum_alloc.Memory.{null}
use ferrum_alloc.Tlsf.Mapping.{fl_count, mapping_search}
use ferrum_alloc.Tlsf.Mapping.Bins.{Before, Before-le}
use ferrum_alloc.Tlsf.Mapping.Search.{
  IsFirstFit, mapping_search-IsFirstFit, mapping_search-too_large,
}
use ferrum_alloc.Tlsf.Allocator.{Tlsf, find_bin}
use ferrum_alloc.Tlsf.Allocator.Bitmaps.{BitmapsAgree, ne-zero_of_bit}

-- List `(f, l)` is in use, holds only sizes from `n` up, and is the first such list.
pub record IsBestFit (t : Tlsf) (n f l : ℕ) : Type 0 where
  pub used : t.lists f l ≢ null
  pub enough : n ≤ (16 + l) * 2 ^ f
  pub least : (g m : ℕ) → t.lists g m ≢ null → n ≤ (16 + m) * 2 ^ g → ¬ Before g m f l

-- No list in use holds only sizes from `n` up.
abbrev pub NoFit : Tlsf → ℕ → Type 0
NoFit t n = (g m : ℕ) → t.lists g m ≢ null → (16 + m) * 2 ^ g < n

-- The bits of a list in use.
bits_of_used :
    (t : Tlsf) (g m : ℕ)
    → BitmapsAgree t
    → t.lists g m ≢ null
    → (bit (t.sl_bitmaps g) m ≡ 1) × (bit t.fl_bitmap g ≡ 1) × (g < 32) × (m < 32)
bits_of_used t g m v used =
    let (hg, hm) = v.inside g m used in
    let set : bit (t.sl_bitmaps g) m ≡ 1 = (v.second g m (omega arith)).1 used in
    (set, (v.first g (omega arith)).1 (ne-zero_of_bit _ m set), omega arith, omega arith)

module _ (t : Tlsf) (n : ℕ) (v : BitmapsAgree t) (f0 l0 : ℕ) (hf : f0 < fl_count)
    (fit : IsFirstFit n f0 l0) where
  -- A list in use that is large enough comes at or after the bin of the search.
  after : (g m : ℕ) → t.lists g m ≢ null → n ≤ (16 + m) * 2 ^ g → (f0 < g) ⊎ ((g ≡ f0) × (l0 ≤ m))
  after g m used enough =
      let (hg, hm) = v.inside g m used in
      let earlier = fit.least g m hm enough in
      elim (dec_lt f0 g) [
        | yes above ↦ inl above
        | no low ↦ elim (dec_lt g f0) [
          | yes below ↦ absurd (earlier (inl below))
          | no same ↦
              let e : g ≡ f0 = omega arith in
              elim (dec_lt m l0) [
                | yes below ↦ absurd (earlier (inr (e, below)))
                | no high ↦ inr (e, omega arith)
              ]
        ]
      ]

  same_level : (k : ℕ) → IsFirstFrom (t.sl_bitmaps f0) l0 k → IsBestFit t n f0 k
  same_level k first =
      let wider : (16 + l0) * 2 ^ f0 ≤ (16 + k) * 2 ^ f0 = grind arith in
      record {
        used = (v.second f0 k first.small).0 first.set;
        enough = omega (arith, fit.enough);
        least = λ g m used enough before.
            ground (arith, after g m used enough, bits_of_used t g m v used, first.clear m);
      }

  next_level :
      (f k : ℕ)
      → from_bit (t.sl_bitmaps f0) l0 ≡ 0
      → IsFirstFrom t.fl_bitmap (f0 + 1) f
      → IsFirstFrom (t.sl_bitmaps f) 0 k
      → IsBestFit t n f k
  next_level f k gone first second =
      let above : (17 + l0) * 2 ^ f0 ≤ (16 + k) * 2 ^ f =
        Before-le {f = f0} {g = f} fit.second (inl (omega arith)) in
      record {
        used = (v.second f k second.small).0 second.set;
        enough = omega (arith, fit.enough);
        least = λ g m used enough before. ground (
          arith,
          after g m used enough,
          bits_of_used t g m v used,
          first.clear g,
          second.clear m,
          fit.second,
          clear_of_from_bit (t.sl_bitmaps f0) l0 m,
        );
      }

  no_level : from_bit (t.sl_bitmaps f0) l0 ≡ 0 → from_bit t.fl_bitmap (f0 + 1) ≡ 0 → NoFit t n
  no_level gone none_up g m used = elim (dec_lt ((16 + m) * 2 ^ g) n) [
    | yes small ↦ small
    | no big ↦ absurd (
        ground (
          arith,
          after g m used,
          bits_of_used t g m v used,
          fit.second,
          clear_of_from_bit (t.sl_bitmaps f0) l0 m,
          clear_of_from_bit t.fl_bitmap (f0 + 1) g,
        ))
  ]

-- `find_bin` with the bin of the search given.
module _ (t : Tlsf) (n : ℕ) where
  abbrev f0 : ℕ
  f0 = (mapping_search n).0

  abbrev l0 : ℕ
  l0 = (mapping_search n).1

  abbrev up : ℕ
  up = trailing_zeros 32 (from_bit t.fl_bitmap (f0 + 1))

  data Found : ℕ × ℕ → Type 0 where
    too_large : fl_count ≤ f0 → Found (fl_count, 0)
    level :
        f0 < fl_count
        → from_bit (t.sl_bitmaps f0) l0 ≢ 0
        → Found (f0, trailing_zeros 32 (from_bit (t.sl_bitmaps f0) l0))
    none_left :
        f0 < fl_count
        → from_bit (t.sl_bitmaps f0) l0 ≡ 0
        → from_bit t.fl_bitmap (f0 + 1) ≡ 0
        → Found (fl_count, 0)
    higher :
        f0 < fl_count
        → from_bit (t.sl_bitmaps f0) l0 ≡ 0
        → from_bit t.fl_bitmap (f0 + 1) ≢ 0
        → Found (up, trailing_zeros 32 (t.sl_bitmaps up))

  find_bin-Found : Found (find_bin t n)
  unfolding find_bin
  find_bin-Found = elim (Bool-cases (leb fl_count f0)) [
    | inl far ↦ rw far (too_large (ground arith))
    | inr near ↦ rw near (elim (Bool-cases (from_bit (t.sl_bitmaps f0) l0 == 0)) [
      | inr here ↦ rw here (level (ground arith) (ground arith))
      | inl gone ↦ rw gone (elim (Bool-cases (from_bit t.fl_bitmap (f0 + 1) == 0)) [
        | inl out ↦ rw out (none_left (ground arith) (ground arith) (ground arith))
        | inr there ↦ rw there (higher (ground arith) (ground arith) (ground arith))
      ])
    ])
  ]

  Fit : ℕ × ℕ → Type 0
  Fit (f, l) = (IsBestFit t n f l) ⊎ ((f ≡ fl_count) × NoFit t n)

  module _ (low : 16 ≤ n) (high : n < 2 ^ 60) (v : BitmapsAgree t) where
    fit : f0 < fl_count → IsFirstFit n f0 l0
    fit h = mapping_search-IsFirstFit n low high h

    Found-Fit : {b : ℕ × ℕ} → Found b → Fit b
    unfolding Fit
    Found-Fit (too_large h) = inr (
      refl,
      λ g m used.
          let (hg, hm) = v.inside g m used in mapping_search-too_large n low high h g m hg hm,
    )
    Found-Fit (level h here) = inl (
        same_level t n v f0 l0 h (fit h) _
          (trailing_zeros-IsFirstFrom _ l0 (v.sl_word f0) (omega (arith, (fit h).second)) here))
    Found-Fit (none_left h gone out) = inr (refl, no_level t n v f0 l0 h (fit h) gone out)
    Found-Fit (higher h gone there) =
        let first = trailing_zeros-IsFirstFrom _ (f0 + 1) v.fl_word (omega arith) there in
        let set : t.sl_bitmaps up ≢ 0 = (v.first up first.small).0 first.set in
        inl (
          next_level t n v f0 l0 h (fit h) _ _ gone first
            (trailing_zeros-IsFirst _ (v.sl_word up) set))

-- While the bitmaps agree with the lists, the search for `n` bytes, from 16 up to `2 ^ 60`, ends
-- in the first list in use all of whose sizes are at least `n`, or fails when there is no such
-- list.
pub find_bin-best :
    (t : Tlsf) (n : ℕ)
    → 16 ≤ n
    → n < 2 ^ 60
    → BitmapsAgree t
    → (IsBestFit t n (find_bin t n).0 (find_bin t n).1)
      ⊎ (((find_bin t n).0 ≡ fl_count) × NoFit t n)
unfolding Fit
find_bin-best t n low high v = Found-Fit t n low high v (find_bin-Found t n)
