-- ===== src/Tlsf/Pool/Merge.antt =====
-- `merge_next` of src/tlsf.rs: a block that is out of the lists swallows the free one behind it; and
-- both merges beside used blocks.
use ferrum_alloc.Base.{
  ℕ, ◌+◌, ◌≡◌, ◌≢◌, sym, refl, ◌∙◌, Bool, true, false, List, [], ◌∷◌, ◌++◌, arith,
}
use ferrum_alloc.Base.Word.{add_size}
use ferrum_alloc.Memory.{Ptr, update}
use ferrum_alloc.Tlsf.Mapping.{header_size}
use ferrum_alloc.Tlsf.Block.{size_and_flags, size, set_size, is_free, payload, next_phys}
use ferrum_alloc.Tlsf.Block.Words.{word, size_lem, set_size_lem, is_free_lem}
use ferrum_alloc.Tlsf.Allocator.{Tlsf, with_mem, remove_free, merge_next, merge_prev}
use ferrum_alloc.Tlsf.Allocator.Listed.{IsListed, IsListed-ext}
use ferrum_alloc.Tlsf.Pool.{
  Part, used_part, free_part, after, stop, heads, free_size, AllSized, last_free, head_bytes,
  head_free,
}
use ferrum_alloc.Tlsf.Pool.Layout.{stop-append, AllSized-append, row_assoc}
use ferrum_alloc.Tlsf.Pool.Phys.{heads-append}
use ferrum_alloc.Tlsf.Pool.Tags.{
  IsLayout, HasTags, HasTags-frame, block-IsSize, head-IsSize, row-AllSized, small,
}
use ferrum_alloc.Tlsf.Pool.Shapes.{IsLayout-join, HasTags-join, resized}
use ferrum_alloc.Tlsf.Pool.Lists.{
  free_size-free, heads-first, take-IsListed, take-SameHeader, heads-own, heads-next,
  free_size-join, IsListed-word, IsListed-prev,
}
use ferrum_alloc.Tlsf.Pool.Owned.{
  Owned, Owned-same, Owned-header, remove_free-Owned, used_size-join,
}
use ferrum_alloc.Tlsf.Pool.State.{IsOpen, open-size, open-prev_is_free}
use ferrum_alloc.Tlsf.Pool.Used.{open-next_phys, next-HasWord}

-- The block has its new size and the next one the link back.
module _ (t : Tlsf) (a : Ptr) (us : List Part) (n : ℕ) (vs : List Part)
    (w : IsLayout a us n vs) where
  pub resized-IsListed :
      IsListed t (free_size a (us ++ used_part n ∷ vs))
      → IsListed
          (with_mem t (resized t.mem a us n vs w true))
          (free_size a (us ++ used_part n ∷ vs))
  resized-IsListed v =
      let x = size_and_flags (stop a us) in
      let value = word n true (last_free false us) in
      let v1 =
        IsListed-word t a (us ++ used_part n ∷ vs) (row-AllSized a us n vs w) w.even v (stop a us)
          value (heads-own a us (used_part n) vs) in
      IsListed-prev (with_mem t (update t.mem x value)) a (us ++ used_part n ∷ vs)
        (row-AllSized a us n vs w) w.even v1 (stop a us + (header_size + n)) n
        (heads-next a us (used_part n) vs)

-- Nothing to merge.
module _ (t : Tlsf) (a : Ptr) (us : List Part) (n : ℕ) (vs : List Part) (known : Bool)
    (o : IsOpen t a us n true known vs) where
  next_is_free : is_free t.mem (next_phys t.mem (stop a us)) ≡ head_free vs
  next_is_free = rw (open-next_phys t a us n vs true known o) (
      is_free_lem t.mem (stop a us + (header_size + n)) (head_bytes vs) (head_free vs) known
        (head-IsSize a us n vs o.lay) (next-HasWord t a us n vs true known o))

  pub merge_next-used : head_free vs ≡ false → merge_next t (stop a us) ≡ (stop a us, t)
  unfolding merge_next
  merge_next-used e = rw (next_is_free, e)

  pub merge_prev-used : last_free false us ≡ false → merge_prev t (stop a us) ≡ (stop a us, t)
  unfolding merge_prev
  merge_prev-used e = rw (open-prev_is_free t a us n vs true known o.lay o.tags, e)

module _ (t : Tlsf) (a : Ptr) (us : List Part) (n k : ℕ) (ws : List Part) (known : Bool)
    (o : IsOpen t a us n true known (free_part k ∷ ws)) where
  abbrev whole_size : ℕ
  whole_size = n + header_size + k

  lay : IsLayout a us whole_size ws
  lay = IsLayout-join a us n (free_part k) ws o.lay

  abbrev at_next : Ptr
  at_next = stop a us + (header_size + n)

  abbrev t1 : Tlsf
  t1 = remove_free t at_next

  abbrev us' : List Part
  us' = us ++ used_part n ∷ []

  us'_sized : AllSized us'
  us'_sized = AllSized-append us (used_part n ∷ []) o.lay.front (o.lay.low, o.lay.whole, tt)

  next_lem : stop a us' ≡ at_next
  next_lem = stop-append a us (used_part n ∷ [])

  next_size : size t.mem (stop a us') ≡ k
  next_size = rw next_lem (
      size_lem t.mem at_next k true known (head-IsSize a us n (free_part k ∷ ws) o.lay)
        (next-HasWord t a us n (free_part k ∷ ws) true known o))

  listed' : IsListed t (free_size a (us' ++ free_part k ∷ ws))
  listed' = rw (row_assoc us (used_part n) (free_part k ∷ ws)) o.listed

  taken_listed : IsListed t1 (free_size a (us ++ used_part whole_size ∷ ws))
  taken_listed =
      IsListed-ext t1 (free_size a (us ++ used_part n ∷ used_part k ∷ ws))
        (rw (row_assoc us (used_part n) (used_part k ∷ ws), next_lem) at
          (take-IsListed t a us' k ws us'_sized o.lay.back.2 o.lay.even o.lay.back.0 o.lay.back.1
            next_size listed'))
        (free_size a (us ++ used_part whole_size ∷ ws))
        (free_size-join a us n k ws o.lay.front o.lay.back.2 o.lay.even o.lay.whole o.lay.back.1)

  same_row :
      (y : Ptr)
      → heads a (us' ++ used_part k ∷ ws) y ≡ heads a (us ++ used_part n ∷ free_part k ∷ ws) y
  same_row y = rw (row_assoc us (used_part n) (used_part k ∷ ws)) (
      ground (
        arith,
        heads-append a us (used_part n ∷ used_part k ∷ ws) y,
        heads-append a us (used_part n ∷ free_part k ∷ ws) y,
      ))

  tags1 : HasTags t1.mem a us n true known (free_part k ∷ ws)
  tags1 = HasTags-frame t.mem t1.mem a us n (free_part k ∷ ws) o.lay true known o.tags (λ y i.
      rw next_lem at (
        take-SameHeader t a us' k ws us'_sized o.lay.back.2 o.lay.even o.lay.back.0 o.lay.back.1
          next_size listed' y (same_row y ∙ i)))

  size1 : size t1.mem (stop a us) ≡ n
  size1 = open-size t1 a us n (free_part k ∷ ws) true known o.lay tags1

  size_next : size t1.mem at_next ≡ k
  size_next =
      size_lem t1.mem at_next k true known (head-IsSize a us n (free_part k ∷ ws) o.lay)
        (tags1.back).0

  sum : add_size (add_size n header_size) k ≡ whole_size
  sum = omega (arith, small a us whole_size ws lay)

  set1 :
      set_size t1.mem (stop a us) whole_size
      ≡ update t1.mem (size_and_flags (stop a us)) (word whole_size true (last_free false us))
  set1 =
      set_size_lem t1.mem (stop a us) n true (last_free false us)
        (block-IsSize a us n (free_part k ∷ ws) o.lay) tags1.own whole_size
        (block-IsSize a us whole_size ws lay)

  new_size :
      size
        (update t1.mem (size_and_flags (stop a us)) (word whole_size true (last_free false us)))
        (stop a us)
      ≡ whole_size
  unfolding update
  new_size =
      size_lem
        (update t1.mem (size_and_flags (stop a us)) (word whole_size true (last_free false us)))
        (stop a us) whole_size true (last_free false us) (block-IsSize a us whole_size ws lay)
        (ground arith)

  at_end : payload (stop a us) + whole_size ≡ stop a us + (header_size + whole_size)
  at_end = omega arith

  joined_lem :
      merge_next t (stop a us)
      ≡ (stop a us, with_mem t1 (resized t1.mem a us whole_size ws lay true))
  unfolding merge_next
  joined_lem = rw (
    next_is_free t a us n (free_part k ∷ ws) known o,
    open-next_phys t a us n (free_part k ∷ ws) true known o,
    size1,
    size_next,
    sum,
    set1,
    new_size,
    at_end,
  )

  pub merge_next-IsOpen :
      ((merge_next t (stop a us)).0 ≡ stop a us)
      × IsOpen (merge_next t (stop a us)).1 a us whole_size true true ws
  merge_next-IsOpen = rw joined_lem (
    refl,
    record {
      lay = lay;
      tags = HasTags-join a us n (free_part k) ws t1.mem true known o.lay lay tags1;
      front = o.front;
      back = o.back.1;
      listed = resized-IsListed t1 a us whole_size ws lay taken_listed;
    },
  )

  -- The words in the other used blocks stay.
  pub merge_next-mem :
      (b y : Ptr)
      → b ≢ stop a us
      → Owned a (us ++ used_part n ∷ free_part k ∷ ws) b y
      → ((merge_next t (stop a us)).1.mem y ≡ t.mem y)
        × Owned a (us ++ used_part whole_size ∷ ws) b y
  unfolding update
  merge_next-mem b y ne w =
      let row : List Part = us ++ used_part n ∷ free_part k ∷ ws in
      let sized = row-AllSized a us n (free_part k ∷ ws) o.lay in
      let its_size : free_size a row at_next ≡ k =
        rw (next_lem, row_assoc us (used_part n) (free_part k ∷ ws)) at
          (free_size-free a us' k ws us'_sized o.lay.back.2 o.lay.even o.lay.back.1) in
      let taken =
        remove_free-Owned a row b y sized o.lay.even w t o.listed at_next
          (λ e. omega (arith, its_size, o.lay.back.0)) (rw next_lem at next_size ∙ sym its_size) in
      let next_end2 : after (after (stop a us) (used_part n)) (free_part k)
          ≡ stop a us + (header_size + whole_size) =
        omega arith in
      let own =
        Owned-header a row b y sized o.lay.even w (stop a us)
          (heads-own a us (used_part n) (free_part k ∷ ws)) in
      let end_ =
        Owned-header a row b y sized o.lay.even w (stop a us + (header_size + whole_size)) (
          ground (
            arith,
            heads-append a us (used_part n ∷ free_part k ∷ ws)
                (stop a us + (header_size + whole_size)),
            heads-first (stop a us + (header_size + whole_size)) ws,
            next_end2,
          )) in
      (
        rw joined_lem (ground (arith, taken, own, end_)),
        Owned-same a row (us ++ used_part whole_size ∷ ws) b y (used_size-join a us ws b ne n k) w,
      )
