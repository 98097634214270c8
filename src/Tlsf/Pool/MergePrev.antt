-- ===== src/Tlsf/Pool/MergePrev.antt =====
-- `merge_prev` of src/tlsf.rs: a block that is out of the lists is swallowed by the free one before it.
use ferrum_alloc.Base.{
  ℕ, ◌+◌, ◌-◌, ◌%◌, ◌≤◌, ◌≡◌, ◌≢◌, sym, ap, subst, refl, ◌∙◌, Bool, true, false, List, [], ◌∷◌,
  ◌++◌, arith,
}
use ferrum_alloc.Base.Word.{add_size}
use ferrum_alloc.Memory.{Ptr, update}
use ferrum_alloc.Tlsf.Mapping.{header_size, min_payload}
use ferrum_alloc.Tlsf.Block.{prev_phys_size, size_and_flags, size, set_size, prev_is_free, payload}
use ferrum_alloc.Tlsf.Block.Words.{HasWord, IsSize, word, size_lem, set_size_lem}
use ferrum_alloc.Tlsf.Allocator.{Tlsf, with_mem, remove_free, merge_prev}
use ferrum_alloc.Tlsf.Allocator.Listed.{IsListed, IsListed-ext}
use ferrum_alloc.Tlsf.Pool.{
  after, Part, used_part, free_part, stop, heads, free_size, AllSized, last_bytes, last_free, Front,
}
use ferrum_alloc.Tlsf.Pool.Layout.{
  stop-append, AllSized-append, AllSized-split, row_assoc, last_bytes-append, last_free-append,
}
use ferrum_alloc.Tlsf.Pool.Phys.{heads-append, Front-split, NoPair-split}
use ferrum_alloc.Tlsf.Pool.Tags.{IsLayout, HasTags, HasTags-frame, block-IsSize, small}
use ferrum_alloc.Tlsf.Pool.Shapes.{HasTags-resize, resized}
use ferrum_alloc.Tlsf.Pool.Lists.{
  free_size-free, heads-first, heads-own, take-IsListed, take-SameHeader, free_size-join,
}
use ferrum_alloc.Tlsf.Pool.Owned.{
  Owned, Owned-same, Owned-header, remove_free-Owned, used_size-join_prev,
}
use ferrum_alloc.Tlsf.Pool.Live.{used-none}
use ferrum_alloc.Tlsf.Pool.State.{IsOpen, open-size, open-prev_is_free}
use ferrum_alloc.Tlsf.Pool.Merge.{resized-IsListed}

module _ (t : Tlsf) (a : Ptr) (us : List Part) (k n : ℕ) (vs : List Part) (known : Bool)
    (o : IsOpen t a (us ++ free_part k ∷ []) n true known vs) where
  abbrev whole_size : ℕ
  whole_size = k + header_size + n

  abbrev us' : List Part
  us' = us ++ free_part k ∷ []

  abbrev block : Ptr
  block = stop a us'

  abbrev t1 : Tlsf
  t1 = remove_free t (stop a us)

  us_sized : AllSized us × (min_payload ≤ k) × (k % 16 ≡ 0)
  us_sized =
      let (s, (low, whole, none)) = AllSized-split us (free_part k ∷ []) o.lay.front in
      (s, low, whole)

  block_lem : block ≡ stop a us + (header_size + k)
  block_lem = stop-append a us (free_part k ∷ [])

  end_lem : block + (header_size + n) ≡ stop a us + (header_size + whole_size)
  end_lem = rw block_lem (omega arith)

  lay : IsLayout a us whole_size vs
  lay = record {
    real = o.lay.real;
    even = o.lay.even;
    front = us_sized.0;
    low = omega (arith, us_sized.1);
    whole = omega (arith, us_sized.2, o.lay.whole);
    back = o.lay.back;
    bound = rw end_lem at o.lay.bound;
  }

  k-IsSize : IsSize k
  k-IsSize = record { even = us_sized.2; small = omega (arith, small a us whole_size vs lay) }

  Front-tags :
      Front t.mem a 0 false us
      × HasWord t.mem (stop a us) k true (last_free false us)
      × (t.mem (prev_phys_size (stop a us)) ≡ last_bytes 0 us)
  Front-tags =
      let (f, (own, own_prev, none)) =
        Front-split t.mem a 0 false us (free_part k ∷ []) o.tags.front in
      (f, own, own_prev)

  prev_size : size t.mem (stop a us) ≡ k
  prev_size = size_lem t.mem (stop a us) k true (last_free false us) k-IsSize Front-tags.1

  prev_lem : block - (t.mem (prev_phys_size block) + header_size) ≡ stop a us
  prev_lem = omega (arith, o.tags.own_prev, last_bytes-append 0 us (free_part k ∷ []), block_lem)

  listed' : IsListed t (free_size a (us ++ free_part k ∷ used_part n ∷ vs))
  listed' = rw (row_assoc us (free_part k) (used_part n ∷ vs)) at o.listed

  taken_listed : IsListed t1 (free_size a (us ++ used_part whole_size ∷ vs))
  taken_listed =
      IsListed-ext t1 (free_size a (us ++ used_part k ∷ used_part n ∷ vs))
        (take-IsListed t a us k (used_part n ∷ vs) us_sized.0 (o.lay.low, o.lay.whole, o.lay.back)
          o.lay.even us_sized.1 us_sized.2 prev_size listed')
        (free_size a (us ++ used_part whole_size ∷ vs))
        (free_size-join a us k n vs us_sized.0 o.lay.back o.lay.even us_sized.2 o.lay.whole)

  same_row :
      (y : Ptr)
      → heads a (us ++ used_part k ∷ used_part n ∷ vs) y ≡ heads a (us' ++ used_part n ∷ vs) y
  same_row y = rw (row_assoc us (free_part k) (used_part n ∷ vs)) (
      ground (
        arith,
        heads-append a us (used_part k ∷ used_part n ∷ vs) y,
        heads-append a us (free_part k ∷ used_part n ∷ vs) y,
      ))

  tags1 : HasTags t1.mem a us' n true known vs
  tags1 = HasTags-frame t.mem t1.mem a us' n vs o.lay true known o.tags (λ y i.
      take-SameHeader t a us k (used_part n ∷ vs) us_sized.0 (o.lay.low, o.lay.whole, o.lay.back)
        o.lay.even us_sized.1 us_sized.2 prev_size listed' y (same_row y ∙ i))

  front1 :
      Front t1.mem a 0 false us
      × HasWord t1.mem (stop a us) k true (last_free false us)
      × (t1.mem (prev_phys_size (stop a us)) ≡ last_bytes 0 us)
  front1 =
      let (f, (own, own_prev, none)) =
        Front-split t1.mem a 0 false us (free_part k ∷ []) tags1.front in
      (f, own, own_prev)

  size_prev : size t1.mem (stop a us) ≡ k
  size_prev = size_lem t1.mem (stop a us) k true (last_free false us) k-IsSize front1.1

  size_block : size t1.mem block ≡ n
  size_block = open-size t1 a us' n vs true known o.lay tags1

  sum : add_size (add_size k header_size) n ≡ whole_size
  sum = omega (arith, small a us whole_size vs lay)

  set1 :
      set_size t1.mem (stop a us) whole_size
      ≡ update t1.mem (size_and_flags (stop a us)) (word whole_size true (last_free false us))
  set1 =
      set_size_lem t1.mem (stop a us) k true (last_free false us) k-IsSize front1.1 whole_size
        (block-IsSize a us whole_size vs lay)

  new_size :
      size
        (update t1.mem (size_and_flags (stop a us)) (word whole_size true (last_free false us)))
        (stop a us)
      ≡ whole_size
  unfolding update
  new_size =
      size_lem
        (update t1.mem (size_and_flags (stop a us)) (word whole_size true (last_free false us)))
        (stop a us) whole_size true (last_free false us) (block-IsSize a us whole_size vs lay)
        (ground arith)

  at_end : payload (stop a us) + whole_size ≡ stop a us + (header_size + whole_size)
  at_end = omega arith

  prev_is_free_here : prev_is_free t.mem block ≡ true
  prev_is_free_here =
      open-prev_is_free t a us' n vs true known o.lay o.tags
      ∙ last_free-append false us (free_part k ∷ [])

  joined_lem :
      merge_prev t block ≡ (stop a us, with_mem t1 (resized t1.mem a us whole_size vs lay true))
  unfolding merge_prev
  joined_lem = rw (prev_is_free_here, prev_lem, size_prev, size_block, sum, set1, new_size, at_end)

  pub merge_prev-IsOpen :
      ((merge_prev t block).0 ≡ stop a us)
      × IsOpen (merge_prev t block).1 a us whole_size true known vs
      × (last_free false us ≡ false)
  merge_prev-IsOpen =
      let (front, (apart, none)) = NoPair-split false us (free_part k ∷ []) o.front in
      rw joined_lem (
        refl,
        record {
          lay = lay;
          tags =
              HasTags-resize t1.mem a us whole_size vs lay true known n front1.0 front1.2
                (rw end_lem at tags1.back);
          front = front;
          back = o.back;
          listed = resized-IsListed t1 a us whole_size vs lay taken_listed;
        },
        ground arith,
      )

  -- The words in the other used blocks stay.
  pub merge_prev-mem :
      (b y : Ptr)
      → b ≢ block
      → Owned a (us' ++ used_part n ∷ vs) b y
      → ((merge_prev t block).1.mem y ≡ t.mem y)
        × Owned a (us ++ used_part whole_size ∷ vs) b y
        × (b ≢ stop a us)
  unfolding update
  merge_prev-mem b y ne w =
      let row : List Part = us ++ free_part k ∷ used_part n ∷ vs in
      let same : us' ++ used_part n ∷ vs ≡ row = row_assoc us (free_part k) (used_part n ∷ vs) in
      let w' : Owned a row b y = subst (λ qs. Owned a qs b y) same w in
      let sized : AllSized row =
        AllSized-append us (free_part k ∷ used_part n ∷ vs) us_sized.0
          (us_sized.1, us_sized.2, (o.lay.low, o.lay.whole, o.lay.back)) in
      let its_size : free_size a row (stop a us) ≡ k =
        free_size-free a us k (used_part n ∷ vs) us_sized.0 (o.lay.low, o.lay.whole, o.lay.back)
          o.lay.even us_sized.2 in
      let other : b ≢ stop a us = λ e.
        omega
          (arith, us_sized.1, its_size, ap (free_size a row) (sym e), used-none a row b w'.used) in
      let taken =
        remove_free-Owned a row b y sized o.lay.even w' t listed' (stop a us)
          (λ e. omega (arith, its_size, us_sized.1)) (prev_size ∙ sym its_size) in
      let own =
        Owned-header a row b y sized o.lay.even w' (stop a us)
          (heads-own a us (free_part k) (used_part n ∷ vs)) in
      let ends : after (after (stop a us) (free_part k)) (used_part n)
          ≡ stop a us + (header_size + whole_size) =
        omega arith in
      let end_ =
        Owned-header a row b y sized o.lay.even w' (stop a us + (header_size + whole_size)) (
          ground (
            arith,
            heads-append a us (free_part k ∷ used_part n ∷ vs)
                (stop a us + (header_size + whole_size)),
            heads-first (stop a us + (header_size + whole_size)) vs,
            ends,
          )) in
      (
        rw joined_lem (ground (arith, taken, own, end_)),
        Owned-same a row (us ++ used_part whole_size ∷ vs) b y
            (used_size-join_prev a us vs b other k n (λ e. ne (e ∙ sym block_lem))) w',
        other,
      )
