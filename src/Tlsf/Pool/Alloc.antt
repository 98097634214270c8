-- ===== src/Tlsf/Pool/Alloc.antt =====
-- `alloc` of src/tlsf.rs over the blocks of the pool.
use ferrum_alloc.Base.{
  ℕ, ◌+◌, ◌*◌, ◌/◌, ◌%◌, ◌^◌, ◌≤◌, ◌<◌, ◌≡◌, ◌≢◌, refl, ap, false, List, [], ◌∷◌, ◌++◌, ◌==◌, arith,
  subst, max, ◌⊎◌, inl, inr, Bool-cases,
}
use ferrum_alloc.Base.Word.{sub_size, add_size}
use ferrum_alloc.Memory.{Ptr, null}
use ferrum_alloc.Tlsf.Mapping.{min_payload, align_up_size, fl_count, mapping}
use ferrum_alloc.Tlsf.Block.{payload}
use ferrum_alloc.Tlsf.Allocator.{Tlsf, prepare_used, find_bin, find_suitable, alloc, remove_free}
use ferrum_alloc.Tlsf.Allocator.Find.{NoFit, find_bin-best}
use ferrum_alloc.Tlsf.Allocator.Chain.{head-mem}
use ferrum_alloc.Base.Bits.{bit_and-high}
use ferrum_alloc.Tlsf.Mapping.Bins.{mapping-InBin, mapping-InBin_self}
use ferrum_alloc.Tlsf.Allocator.Listed.{no-head}
use ferrum_alloc.Tlsf.Pool.{Part, free_part, after, stop, free_size}
use ferrum_alloc.Tlsf.Pool.Coalesce.{taken}
use ferrum_alloc.Tlsf.Pool.Prepare.{prepare_used-IsPool}
use ferrum_alloc.Tlsf.Pool.Kept.{taken-mem}
use ferrum_alloc.Tlsf.Pool.Owned.{Owned}
use ferrum_alloc.Tlsf.Pool.Tags.{small}
use ferrum_alloc.Tlsf.Pool.State.{IsPool, IsPool-layout, remove_free-IsOpen}

-- The free block at `x` among the blocks.
record IsFreeAt (a : Ptr) (ps : List Part) (x : Ptr) : Type 0 where
  before : List Part
  behind : List Part
  same : ps ≡ before ++ free_part (free_size a ps x) ∷ behind
  at : stop a before ≡ x

free_block : (a : Ptr) (ps : List Part) (x : Ptr) → free_size a ps x ≢ 0 → IsFreeAt a ps x
free_block a [] x real = absurd (real refl)
free_block a (p ∷ ps) x real = elim (Bool-cases (x == a)) [
  | inl here ↦ elim (Bool-cases p.free) [
    | inl frees ↦ record { before = []; behind = ps; same = rw (here, frees); at = ground arith }
    | inr uses ↦ absurd (ground arith)
  ]
  | inr there ↦
      let rest = free_block (after a p) ps x (ground arith) in
      record {
        before = p ∷ rest.before;
        behind = rest.behind;
        same = rw there (ap (λ qs. p ∷ qs) rest.same);
        at = rest.at;
      }
]

-- The size that `alloc` looks for.
abbrev pub adjusted : ℕ → ℕ
adjusted n = max (align_up_size n) min_payload

pub align_up_size_lem : (n : ℕ) → n < 2 ^ 59 → align_up_size n ≡ (n + 15) / 16 * 16
unfolding align_up_size
align_up_size_lem n small =
    let sum : sub_size (add_size n 16) 1 ≡ n + 15 = omega arith in
    rw sum (bit_and-high 64 4 (n + 15) (omega arith) (omega arith))

-- `alloc` has taken `n` bytes from the free block of `size` bytes between `before` and `behind`, and
-- has left a pool and every word in a used block.
pub record IsTaken (t : Tlsf) (a : Ptr) (ps : List Part) (n : ℕ) (result : Ptr × Tlsf)
    : Type 0 where
  pub before : List Part
  pub size : ℕ
  pub behind : List Part
  pub same : ps ≡ before ++ free_part size ∷ behind
  pub fits : n ≤ size
  pub address : result.0 ≡ payload (stop a before)
  pub pool : IsPool result.1 a (before ++ taken size n behind)
  pub kept : (b y : Ptr) → Owned a ps b y → result.1.mem y ≡ t.mem y

-- A size that misses a bin exceeds no size of the bin by a sixteenth.
close_fit : (n k m p : ℕ) → (16 + m) * p < n → k < (17 + m) * p → k < n + n / 16
close_fit n k m p miss upper =
    let wide : 16 * p ≤ (16 + m) * p = grind arith in
    let step : (17 + m) * p ≡ (16 + m) * p + p = grind arith in omega arith

module _ (t : Tlsf) (a : Ptr) (ps : List Part) (v : IsPool t a ps) where
  -- The head of a list in use is a free block of a size of its bin.
  head_block :
      (f l : ℕ)
      → t.lists f l ≢ null
      → (free_size a ps (t.lists f l) ≢ 0) × (mapping (free_size a ps (t.lists f l)) ≡ (f, l))
  head_block f l used = v.listed.listed f l (t.lists f l) (
      ground
        (arith, head-mem t.mem (v.listed.bins f l) null (t.lists f l) (v.listed.linked.chain f l)))

  prepare :
      (f l n : ℕ)
      → t.lists f l ≢ null
      → n ≤ (16 + l) * 2 ^ f
      → min_payload ≤ n
      → n % 16 ≡ 0
      → IsTaken t a ps n (prepare_used (remove_free t (t.lists f l)) (t.lists f l) n)
  prepare f l n used enough low whole =
      let (real, bin) = head_block f l used in
      let w = free_block a ps (t.lists f l) real in
      let k : ℕ = free_size a ps (t.lists f l) in
      let pool = subst (λ qs. IsPool t a qs) w.same v in
      let lay = IsPool-layout t a w.before (free_part k) w.behind pool in
      let in_bin =
        (mapping-InBin k f l lay.low (omega (arith, small a w.before k w.behind lay))).0 bin in
      let fits : n ≤ k = omega (arith, in_bin.lower) in
      let o = remove_free-IsOpen t a w.before k w.behind pool in
      let (address, after_pool) =
        prepare_used-IsPool (remove_free t (stop a w.before)) a w.before k n w.behind o low whole
          fits in
      let result : IsTaken t a ps n
          (prepare_used (remove_free t (stop a w.before)) (stop a w.before) n) =
        record {
          before = w.before;
          size = k;
          behind = w.behind;
          same = w.same;
          fits = fits;
          address = address;
          pool = after_pool;
          kept = λ b y own.
              taken-mem t a w.before k n w.behind pool low whole fits b y
                (subst (λ qs. Owned a qs b y) w.same own);
        } in
      rw w.at at result

  adjusted_low : (n : ℕ) → min_payload ≤ adjusted n
  adjusted_low n = omega arith

  adjusted_whole : (n : ℕ) → n < 2 ^ 59 → adjusted n % 16 ≡ 0
  adjusted_whole n below = rw (align_up_size_lem n below) (ground arith)

  adjusted_small : (n : ℕ) → n < 2 ^ 59 → adjusted n < 2 ^ 60
  adjusted_small n below = rw (align_up_size_lem n below) (ground arith)

  found :
      (n f l : ℕ)
      → n ≢ 0
      → f ≢ fl_count
      → t.lists f l ≢ null
      → find_bin t (adjusted n) ≡ (f, l)
      → alloc t n ≡ prepare_used (remove_free t (t.lists f l)) (t.lists f l) (adjusted n)
  unfolding alloc find_suitable
  found n f l real inside used e =
      let some_bytes : (n == 0) ≡ false = ground arith in
      let in_table : (f == fl_count) ≡ false = ground arith in
      let in_use : (t.lists f l == null) ≡ false = ground arith in
      rw (e, some_bytes, in_table, in_use)

  missed : (n : ℕ) → n ≢ 0 → (find_bin t (adjusted n)).0 ≡ fl_count → alloc t n ≡ (null, t)
  unfolding alloc find_suitable
  missed n real e = let some_bytes : (n == 0) ≡ false = ground arith in rw (some_bytes, e)

  -- `alloc` of a size other than 0 and below 2^59 on a pool returns the payload of a free block of
  -- at least the adjusted size, which it leaves used, with the rest of it a free block where one
  -- fits, and keeps every word in a used block; or it returns null and leaves everything as it was,
  -- and then no list holds only sizes that are large enough.
  pub alloc-IsTaken :
      (n : ℕ)
      → n ≢ 0
      → n < 2 ^ 59
      → IsTaken t a ps (adjusted n) (alloc t n) ⊎ ((alloc t n ≡ (null, t)) × NoFit t (adjusted n))
  alloc-IsTaken n real below =
      let (f, l) = find_bin t (adjusted n) in
      elim (find_bin-best t (adjusted n) (adjusted_low n) (adjusted_small n below) v.listed.agree) [
        | inl best ↦
            let (in_fl, in_sl) = v.listed.agree.inside f l best.used in
            inl (
              rw (found n f l real (omega arith) best.used refl) (
                prepare f l (adjusted n) best.used best.enough (adjusted_low n)
                  (adjusted_whole n below)))
        | inr (none_left, no_fit) ↦ inr (missed n real none_left, no_fit)
      ]

  -- `alloc` of a size other than 0 and below 2^59 on a pool serves the request when a free block
  -- exceeds the adjusted size by a sixteenth or more.
  pub alloc-served :
      (n x : ℕ)
      → n ≢ 0
      → n < 2 ^ 59
      → adjusted n + adjusted n / 16 ≤ free_size a ps x
      → IsTaken t a ps (adjusted n) (alloc t n)
  alloc-served n x real below large = elim (alloc-IsTaken n real below) [
    | inl taken ↦ taken
    | inr (gone, no_fit) ↦
        let k : ℕ = free_size a ps x in
        let has_block : k ≢ 0 = λ e. omega (arith, adjusted_low n) in
        let w = free_block a ps x has_block in
        let lay =
          IsPool-layout t a w.before (free_part k) w.behind
            (subst (λ qs. IsPool t a qs) w.same v) in
        let in_bin =
          mapping-InBin_self k lay.low (omega (arith, small a w.before k w.behind lay)) in
        let used : t.lists (mapping k).0 (mapping k).1 ≢ null = λ e. ground (
          arith,
          no-head t.mem (v.listed.bins (mapping k).0 (mapping k).1) null
              (t.lists (mapping k).0 (mapping k).1) x
              (v.listed.linked.chain (mapping k).0 (mapping k).1) e,
          v.listed.complete x has_block,
        ) in
        absurd (
          omega (
            arith,
            close_fit (adjusted n) k (mapping k).1 (2 ^ (mapping k).0)
                (no_fit (mapping k).0 (mapping k).1 used) in_bin.upper,
          ))
  ]
