-- ===== src/Tlsf/Pool/Owned.antt =====
-- The words inside a used block of the pool: what the allocator of src/tlsf.rs writes elsewhere leaves
-- them alone.
use ferrum_alloc.Base.{ℕ, ◌+◌, ◌%◌, ◌≤◌, ◌<◌, ◌≡◌, ◌≢◌, ◌∙◌, ap, true, List, ◌∷◌, ◌++◌, arith}
use ferrum_alloc.Memory.{Ptr}
use ferrum_alloc.Tlsf.Mapping.{header_size}
use ferrum_alloc.Tlsf.Block.{prev_phys_size, size_and_flags, link_prev, link_next, size}
use ferrum_alloc.Tlsf.Allocator.{Tlsf, insert_free, remove_free}
use ferrum_alloc.Tlsf.Allocator.Listed.{IsListed, remove_free-outside, insert_free-outside}
use ferrum_alloc.Tlsf.Pool.{
  Part, used_part, free_part, after, stop, starts, heads, free_size, AllSized,
}
use ferrum_alloc.Tlsf.Pool.Layout.{starts_of_free, spaced}
use ferrum_alloc.Tlsf.Pool.Live.{
  used_size, used-none, used_spaced, starts_of_used, used_size-append, used_size-ge,
}

-- The address `y` is inside the used block at `b`.
pub record Owned (a : Ptr) (ps : List Part) (b y : Ptr) : Type 0 where
  pub used : used_size a ps b ≢ 0
  pub low : b + header_size ≤ y
  pub high : y < b + header_size + used_size a ps b

-- The same used block in another row.
pub Owned-same :
    (a : Ptr) (ps qs : List Part) (b y : Ptr)
    → used_size a qs b ≡ used_size a ps b
    → Owned a ps b y
    → Owned a qs b y
Owned-same a ps qs b y e w = record {
  used = λ z. w.used (omega arith);
  low = w.low;
  high = omega (arith, w.high);
}

module _ (a : Ptr) (ps : List Part) (b y : Ptr) (sized : AllSized ps) (even : a % 16 ≡ 0)
    (w : Owned a ps b y) where
  start : starts a ps b ≡ true
  start = starts_of_used a ps b w.used

  -- It is in no header.
  pub Owned-header :
      (x : Ptr) → heads a ps x ≡ true → (y ≢ prev_phys_size x) × (y ≢ size_and_flags x)
  Owned-header x i =
      let far : b < x → b + header_size + used_size a ps b ≤ x =
        λ lt. used_spaced a ps b x sized even w.used i lt in
      (λ e. omega (arith, w.low, w.high, far), λ e. omega (arith, w.low, w.high, far))

  -- It is no link of another block.
  pub Owned-link : (x : Ptr) → starts a ps x ≡ true → x ≢ b → (y ≢ link_prev x) × (y ≢ link_next x)
  Owned-link x i ne =
      let far : b < x → b + header_size + used_size a ps b ≤ x =
        λ lt. used_spaced a ps b x sized even w.used (ground arith) lt in
      let near : x < b → x + 32 ≤ b =
        λ lt. spaced a ps b x sized even i (ground (arith, start)) lt in
      (λ e. ground (arith, w.low, w.high, far, near), λ e. ground (arith, w.low, w.high, far, near))

  free-apart : (x : Ptr) → free_size a ps x ≢ 0 → (y ≢ link_prev x) × (y ≢ link_next x)
  free-apart x has_size =
      Owned-link x (starts_of_free a ps x has_size)
        (λ e. has_size (ap (free_size a ps) e ∙ used-none a ps b w.used))

  module _ (t : Tlsf) (v : IsListed t (free_size a ps)) where
    pub remove_free-Owned :
        (x : Ptr)
        → free_size a ps x ≢ 0
        → size t.mem x ≡ free_size a ps x
        → (remove_free t x).mem y ≡ t.mem y
    remove_free-Owned x has_size is_size =
        remove_free-outside t (free_size a ps) v y free-apart x has_size is_size

    pub insert_free-Owned :
        (x : Ptr) → starts a ps x ≡ true → x ≢ b → (insert_free t x).mem y ≡ t.mem y
    insert_free-Owned x i ne =
        let (np, nn) = Owned-link x i ne in
        insert_free-outside t (free_size a ps) v y free-apart x np nn

-- The rows around one block, seen from the other blocks.
module _ (a : Ptr) (us vs : List Part) (b : Ptr) (ne : b ≢ stop a us) where
  pub used_size-other :
      (p q : Part) → p.bytes ≡ q.bytes → used_size a (us ++ p ∷ vs) b ≡ used_size a (us ++ q ∷ vs) b
  used_size-other p q e =
      rw (used_size-append a us (p ∷ vs) b, used_size-append a us (q ∷ vs) b, e) (ground arith)

  pub used_size-join :
      (n k : ℕ)
      → used_size a (us ++ used_part (n + header_size + k) ∷ vs) b
        ≡ used_size a (us ++ used_part n ∷ free_part k ∷ vs) b
  used_size-join n k =
      let e : after (after (stop a us) (used_part n)) (free_part k)
          ≡ after (stop a us) (used_part (n + header_size + k)) =
        omega arith in
      rw
        (
          used_size-append a us (used_part n ∷ free_part k ∷ vs) b,
          used_size-append a us (used_part (n + header_size + k) ∷ vs) b,
          e,
        )
        (ground (arith, used_size-ge (after (stop a us) (used_part (n + header_size + k))) vs b))

  -- With a used block behind a free one.
  pub used_size-join_prev :
      (k n : ℕ)
      → b ≢ after (stop a us) (free_part k)
      → used_size a (us ++ used_part (k + header_size + n) ∷ vs) b
        ≡ used_size a (us ++ free_part k ∷ used_part n ∷ vs) b
  used_size-join_prev k n ne' =
      let e : after (after (stop a us) (free_part k)) (used_part n)
          ≡ after (stop a us) (used_part (k + header_size + n)) =
        omega arith in
      rw
        (
          used_size-append a us (free_part k ∷ used_part n ∷ vs) b,
          used_size-append a us (used_part (k + header_size + n) ∷ vs) b,
          e,
        )
        (ground arith)
