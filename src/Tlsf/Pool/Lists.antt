-- ===== src/Tlsf/Pool/Lists.antt =====
-- The lists of free blocks of src/tlsf.rs beside the blocks of the pool: what a header write, an
-- insertion and a removal change.
use ferrum_alloc.Base.{
  ℕ, ◌+◌, ◌%◌, ◌^◌, ◌≤◌, ◌<◌, ◌≡◌, ◌≢◌, sym, ◌∙◌, true, false, List, [], ◌∷◌, ◌++◌, arith,
}
use ferrum_alloc.Memory.{Ptr, null, update}
use ferrum_alloc.Tlsf.Mapping.{header_size, min_payload}
use ferrum_alloc.Tlsf.Block.{prev_phys_size, size_and_flags, size}
use ferrum_alloc.Tlsf.Allocator.{Tlsf, with_mem, insert_free, remove_free}
use ferrum_alloc.Tlsf.Allocator.Listed.{
  IsListed, IsListed-frame, IsListed-ext, insert_free-IsListed, remove_free-IsListed,
  remove_free-outside, insert_free-outside, with_free,
}
use ferrum_alloc.Tlsf.Pool.{
  Part, used_part, free_part, after, stop, starts, heads, free_size, AllSized,
}
use ferrum_alloc.Tlsf.Pool.Layout.{
  starts-append, header-apart, starts_of_free, free_size-out, free_size-append, starts_bounds,
  AllSized-append, stop-even,
}
use ferrum_alloc.Tlsf.Pool.Phys.{SameHeader, heads-append}

-- The sentinel, or the first block, is the first header.
pub heads-first : (a : Ptr) (ps : List Part) → heads a ps a ≡ true
heads-first a [] = ground arith
heads-first a (p ∷ ps) = ground arith

pub heads-own :
    (a : Ptr) (us : List Part) (p : Part) (vs : List Part)
    → heads a (us ++ p ∷ vs) (stop a us) ≡ true
heads-own a us p vs = ground (arith, heads-append a us (p ∷ vs) (stop a us))

pub heads-next :
    (a : Ptr) (us : List Part) (p : Part) (vs : List Part)
    → heads a (us ++ p ∷ vs) (after (stop a us) p) ≡ true
heads-next a us p vs =
    ground (
      arith,
      heads-append a us (p ∷ vs) (after (stop a us) p),
      heads-first (after (stop a us) p) vs,
    )

module _ (t : Tlsf) (a : Ptr) (ps : List Part) (sized : AllSized ps) (even : a % 16 ≡ 0)
    (v : IsListed t (free_size a ps)) where
  -- A write to a header.
  pub IsListed-word :
      (x w : ℕ)
      → heads a ps x ≡ true
      → IsListed (with_mem t (update t.mem (size_and_flags x) w)) (free_size a ps)
  unfolding update
  IsListed-word x w i =
      IsListed-frame t (free_size a ps) v (update t.mem (size_and_flags x) w)
        (λ y real. ground (arith, header-apart a ps x y sized even (starts_of_free a ps y real) i))

  pub IsListed-prev :
      (x w : ℕ)
      → heads a ps x ≡ true
      → IsListed (with_mem t (update t.mem (prev_phys_size x) w)) (free_size a ps)
  unfolding update
  IsListed-prev x w i =
      IsListed-frame t (free_size a ps) v (update t.mem (prev_phys_size x) w)
        (λ y real. ground (arith, header-apart a ps x y sized even (starts_of_free a ps y real) i))

  -- The lists leave the headers alone.
  pub remove_free-SameHeader :
      (x y : Ptr)
      → free_size a ps x ≢ 0
      → size t.mem x ≡ free_size a ps x
      → heads a ps y ≡ true
      → SameHeader t.mem (remove_free t x).mem y
  remove_free-SameHeader x y real is_size i = (
    remove_free-outside t (free_size a ps) v (prev_phys_size y)
        (λ z z_real.
          ground (arith, header-apart a ps y z sized even (starts_of_free a ps z z_real) i))
        x real is_size,
    remove_free-outside t (free_size a ps) v (size_and_flags y)
        (λ z z_real.
          ground (arith, header-apart a ps y z sized even (starts_of_free a ps z z_real) i))
        x real is_size,
  )

  pub insert_free-SameHeader :
      (x y : Ptr)
      → starts a ps x ≡ true
      → heads a ps y ≡ true
      → SameHeader t.mem (insert_free t x).mem y
  insert_free-SameHeader x y j i =
      let (p1, n1, p2, n2) = header-apart a ps y x sized even j i in
      (
        insert_free-outside t (free_size a ps) v (prev_phys_size y)
            (λ z z_real.
              ground (arith, header-apart a ps y z sized even (starts_of_free a ps z z_real) i))
            x p1 n1,
        insert_free-outside t (free_size a ps) v (size_and_flags y)
            (λ z z_real.
              ground (arith, header-apart a ps y z sized even (starts_of_free a ps z z_real) i))
            x p2 n2,
      )

-- The sizes around one block.
module _ (a : Ptr) (us : List Part) (n : ℕ) (vs : List Part) (us_sized : AllSized us)
    (vs_sized : AllSized vs) (even : a % 16 ≡ 0) (whole : n % 16 ≡ 0) where
  own-out : starts a us (stop a us) ≡ false
  own-out = ground (arith, starts_bounds a us (stop a us) us_sized even)

  pub free_size-used : free_size a (us ++ used_part n ∷ vs) (stop a us) ≡ 0
  free_size-used = ground (arith, free_size-append a us (used_part n ∷ vs) (stop a us), own-out)

  pub free_size-free : free_size a (us ++ free_part n ∷ vs) (stop a us) ≡ n
  free_size-free = ground (arith, free_size-append a us (free_part n ∷ vs) (stop a us), own-out)

  pub free_size-take :
      (x : Ptr)
      → free_size a (us ++ used_part n ∷ vs) x
        ≡ with_free (free_size a (us ++ free_part n ∷ vs)) (stop a us) 0 x
  free_size-take x = ground (
    arith,
    free_size-append a us (used_part n ∷ vs) x,
    free_size-append a us (free_part n ∷ vs) x,
    own-out,
  )

  pub free_size-give :
      (x : Ptr)
      → free_size a (us ++ free_part n ∷ vs) x
        ≡ with_free (free_size a (us ++ used_part n ∷ vs)) (stop a us) n x
  free_size-give x = ground (
    arith,
    free_size-append a us (used_part n ∷ vs) x,
    free_size-append a us (free_part n ∷ vs) x,
    own-out,
  )

-- Two blocks as one.
module _ (a : Ptr) (us : List Part) (n k : ℕ) (vs : List Part) (us_sized : AllSized us)
    (vs_sized : AllSized vs) (even : a % 16 ≡ 0) (whole : n % 16 ≡ 0) (whole' : k % 16 ≡ 0) where
  pub free_size-join :
      (x : Ptr)
      → free_size a (us ++ used_part (n + header_size + k) ∷ vs) x
        ≡ free_size a (us ++ used_part n ∷ used_part k ∷ vs) x
  free_size-join x = ground (
    arith,
    free_size-append a us (used_part n ∷ used_part k ∷ vs) x,
    free_size-append a us (used_part (n + header_size + k) ∷ vs) x,
    free_size-out (stop a us + (16 + (n + 16 + k))) vs x,
    starts_bounds (stop a us + (16 + (n + 16 + k))) vs x vs_sized,
    stop-even a us us_sized even,
  )

-- A block of the row leaves the lists, and joins them.
module _ (t : Tlsf) (a : Ptr) (us : List Part) (n : ℕ) (vs : List Part) (us_sized : AllSized us)
    (vs_sized : AllSized vs) (even : a % 16 ≡ 0) (low : min_payload ≤ n) (whole : n % 16 ≡ 0)
    (is_size : size t.mem (stop a us) ≡ n) where
  free_sized : AllSized (us ++ free_part n ∷ vs)
  free_sized = AllSized-append us (free_part n ∷ vs) us_sized (low, whole, vs_sized)

  used_sized : AllSized (us ++ used_part n ∷ vs)
  used_sized = AllSized-append us (used_part n ∷ vs) us_sized (low, whole, vs_sized)

  its_size : free_size a (us ++ free_part n ∷ vs) (stop a us) ≡ n
  its_size = free_size-free a us n vs us_sized vs_sized even whole

  none : free_size a (us ++ used_part n ∷ vs) (stop a us) ≡ 0
  none = free_size-used a us n vs us_sized vs_sized even whole

  same_heads : (y : Ptr) → heads a (us ++ free_part n ∷ vs) y ≡ heads a (us ++ used_part n ∷ vs) y
  same_heads y =
      ground (arith, heads-append a us (used_part n ∷ vs) y, heads-append a us (free_part n ∷ vs) y)

  pub take-IsListed :
      IsListed t (free_size a (us ++ free_part n ∷ vs))
      → IsListed (remove_free t (stop a us)) (free_size a (us ++ used_part n ∷ vs))
  take-IsListed v =
      IsListed-ext (remove_free t (stop a us))
        (with_free (free_size a (us ++ free_part n ∷ vs)) (stop a us) 0)
        (remove_free-IsListed t (free_size a (us ++ free_part n ∷ vs)) v (stop a us)
          (λ e. omega (arith, its_size)) (is_size ∙ sym its_size))
        (free_size a (us ++ used_part n ∷ vs))
        (free_size-take a us n vs us_sized vs_sized even whole)

  pub take-SameHeader :
      IsListed t (free_size a (us ++ free_part n ∷ vs))
      → (y : Ptr) → heads a (us ++ used_part n ∷ vs) y ≡ true
      → SameHeader t.mem (remove_free t (stop a us)).mem y
  take-SameHeader v y i =
      remove_free-SameHeader t a (us ++ free_part n ∷ vs) free_sized even v (stop a us) y
        (λ e. omega (arith, its_size)) (is_size ∙ sym its_size) (same_heads y ∙ i)

  module _ (v : IsListed t (free_size a (us ++ used_part n ∷ vs))) where
    pub give-IsListed :
        stop a us ≢ null
        → n < 2 ^ 22
        → IsListed (insert_free t (stop a us)) (free_size a (us ++ free_part n ∷ vs))
    give-IsListed real high =
        IsListed-ext (insert_free t (stop a us))
          (with_free (free_size a (us ++ used_part n ∷ vs)) (stop a us) n)
          (insert_free-IsListed t (free_size a (us ++ used_part n ∷ vs)) v (stop a us) n real
            (stop-even a us us_sized even) none is_size low high)
          (free_size a (us ++ free_part n ∷ vs))
          (free_size-give a us n vs us_sized vs_sized even whole)

    pub give-SameHeader :
        (y : Ptr)
        → heads a (us ++ used_part n ∷ vs) y ≡ true
        → SameHeader t.mem (insert_free t (stop a us)).mem y
    give-SameHeader y i =
        insert_free-SameHeader t a (us ++ used_part n ∷ vs) used_sized even v (stop a us) y
          (ground (arith, starts-append a us (used_part n ∷ vs) (stop a us))) i
