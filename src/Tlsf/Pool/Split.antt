-- ===== src/Tlsf/Pool/Split.antt =====
-- `split_block` of src/tlsf.rs: a block that is out of the lists is cut down, and the rest of it
-- becomes a free block.
use ferrum_alloc.Base.{
  ℕ, ◌+◌, ◌%◌, ◌≤◌, ◌≡◌, ◌≢◌, refl, ◌∙◌, sym, true, false, List, [], ◌∷◌, ◌++◌, arith,
}
use ferrum_alloc.Base.Word.{sub_size}
use ferrum_alloc.Memory.{Ptr, null, Mem, update}
use ferrum_alloc.Tlsf.Mapping.{header_size, min_payload}
use ferrum_alloc.Tlsf.Block.{prev_phys_size, size_and_flags, link_prev, link_next, size, payload}
use ferrum_alloc.Tlsf.Block.Words.{
  HasWord, IsSize, word, size_lem, set_size_lem, mark_prev_free_lem, or_flags,
}
use ferrum_alloc.Tlsf.Allocator.{Tlsf, with_mem, insert_free, split, write_header, clear_links}
use ferrum_alloc.Tlsf.Allocator.Listed.{IsListed, IsListed-ext, IsListed-frame}
use ferrum_alloc.Tlsf.Pool.{
  Part, used_part, free_part, after, stop, heads, free_size, AllSized, last_free, head_bytes,
  head_free,
}
use ferrum_alloc.Tlsf.Pool.Layout.{
  stop-append, stop-le, AllSized-append, row_assoc, header-apart, starts_of_free, free_size-append,
  starts_bounds, heads_bounds,
}
use ferrum_alloc.Tlsf.Pool.Phys.{heads-append, head-HasWord}
use ferrum_alloc.Tlsf.Pool.Tags.{
  IsLayout, HasTags, HasTags-frame, block-IsSize, head-IsSize, row-AllSized, small,
}
use ferrum_alloc.Tlsf.Pool.Shapes.{IsLayout-cut, HasTags-cut, cut, rest_block}
use ferrum_alloc.Tlsf.Pool.Lists.{
  heads-first, give-IsListed, give-SameHeader, heads-own, heads-next, free_size-join,
}
use ferrum_alloc.Tlsf.Pool.State.{IsOpen}

module _ (t : Tlsf) (a : Ptr) (us : List Part) (n r : ℕ) (ws : List Part)
    (o : IsOpen t a us (n + header_size + r) true true ws) (low : min_payload ≤ n)
    (whole : n % 16 ≡ 0) (low' : min_payload ≤ r) (whole' : r % 16 ≡ 0) where
  lay : IsLayout a us n (free_part r ∷ ws)
  lay = IsLayout-cut a us n (free_part r) ws low whole low' whole' o.lay

  abbrev pub g : Mem
  g = cut a us n (free_part r) ws t.mem true

  r-IsSize : IsSize r
  r-IsSize = record {
    even = whole';
    small = omega (arith, small a us (n + header_size + r) ws o.lay);
  }

  tags : HasTags g a us n true false (free_part r ∷ ws)
  tags = HasTags-cut a us n (free_part r) ws t.mem true true refl lay o.lay o.tags

  abbrev pub at_rest : Ptr
  at_rest = rest_block a us n (free_part r) ws

  abbrev pub at_end : Ptr
  at_end = after at_rest (free_part r)

  -- The memory after the new size, with the rest's header, and with the link back to the rest.
  abbrev g1 : Mem
  g1 = update t.mem (size_and_flags (stop a us)) (word n true (last_free false us))

  abbrev g2 : Mem
  g2 =
      update
        (update
          (update (update g1 (prev_phys_size at_rest) n) (size_and_flags at_rest)
            (word r true false))
          (link_prev at_rest) null)
        (link_next at_rest) null

  abbrev g3 : Mem
  g3 = update g2 (prev_phys_size at_end) r

  size-g1 : size g1 (stop a us) ≡ n
  unfolding update
  size-g1 =
      size_lem g1 (stop a us) n true (last_free false us)
        (block-IsSize a us n (free_part r ∷ ws) lay) (ground arith)

  size-g2 : size g2 at_rest ≡ r
  unfolding update
  size-g2 = size_lem g2 at_rest r true false r-IsSize (ground arith)

  rest_here : payload (stop a us) + n ≡ at_rest
  rest_here = omega arith

  end_there : payload at_rest + r ≡ at_end
  end_there = omega arith

  end_here : stop a us + (header_size + (n + header_size + r)) ≡ at_end
  end_here = omega arith

  end_word : HasWord t.mem at_end (head_bytes ws) (head_free ws) true
  end_word = rw end_here at (
      head-HasWord t.mem (stop a us + (header_size + (n + header_size + r))) (n + header_size + r)
        true ws o.tags.back)

  end-g3 : HasWord g3 at_end (head_bytes ws) (head_free ws) true
  unfolding update
  end-g3 = ground (arith, end_word)

  rest_payload : sub_size (header_size + r) header_size ≡ r
  rest_payload = omega (arith, r-IsSize.small)

  pub split-mem : split t (stop a us) n (header_size + r) ≡ insert_free (with_mem t g) at_rest
  unfolding split write_header clear_links
  split-mem = rw (
    set_size_lem t.mem (stop a us) (n + header_size + r) true (last_free false us)
        (block-IsSize a us (n + header_size + r) ws o.lay) o.tags.own n
        (block-IsSize a us n (free_part r ∷ ws) lay),
    size-g1,
    rest_here,
    rest_payload,
    or_flags r true false r-IsSize,
    size-g2,
    end_there,
    mark_prev_free_lem g3 at_end (head_bytes ws) (head_free ws) true
        (head-IsSize a us (n + header_size + r) ws o.lay) end-g3,
  )

  abbrev pub two : List Part
  two = us ++ used_part n ∷ used_part r ∷ ws

  pub two_lay : IsLayout a us n (used_part r ∷ ws)
  two_lay = IsLayout-cut a us n (used_part r) ws low whole low' whole' o.lay

  pub two-heads : (heads a two at_rest ≡ true) × (heads a two at_end ≡ true)
  two-heads = (
    heads-next a us (used_part n) (used_part r ∷ ws),
    ground
        (arith, heads-append a us (used_part n ∷ used_part r ∷ ws) at_end, heads-first at_end ws),
  )

  old_listed : IsListed t (free_size a two)
  old_listed =
      IsListed-ext t (free_size a (us ++ used_part (n + header_size + r) ∷ ws)) o.listed
        (free_size a two)
        (λ x. sym (free_size-join a us n r ws o.lay.front o.lay.back o.lay.even whole whole' x))

  -- The rest is no free block yet, so its links belong to no list.
  rest_none : free_size a two at_rest ≡ 0
  rest_none = ground (
    arith,
    free_size-append a us (used_part n ∷ used_part r ∷ ws) at_rest,
    starts_bounds a us at_rest o.lay.front o.lay.even,
  )

  pub two_listed : IsListed (with_mem t g) (free_size a two)
  unfolding update
  two_listed = IsListed-frame t (free_size a two) old_listed g (λ y real.
      let i = starts_of_free a two y real in
      let sized = row-AllSized a us n (used_part r ∷ ws) two_lay in
      let apart : (x : Ptr)
          → heads a two x ≡ true
          → (x ≢ link_prev y)
            × (x ≢ link_next y)
            × (size_and_flags x ≢ link_prev y)
            × (size_and_flags x ≢ link_next y) =
        λ x h. header-apart a two x y sized lay.even i h in
      ground (
        arith,
        apart (stop a us) (heads-own a us (used_part n) (used_part r ∷ ws)),
        apart at_rest two-heads.0,
        apart at_end two-heads.1,
        rest_none,
        starts_bounds a two y sized lay.even i,
        heads_bounds a two at_rest sized lay.even two-heads.0,
      ))

  abbrev us' : List Part
  us' = us ++ used_part n ∷ []

  us'_sized : AllSized us'
  us'_sized = AllSized-append us (used_part n ∷ []) o.lay.front (low, whole, tt)

  rest_block_lem : stop a us' ≡ at_rest
  rest_block_lem = stop-append a us (used_part n ∷ [])

  rest_size : size g (stop a us') ≡ r
  rest_size = rw rest_block_lem (size_lem g at_rest r true false r-IsSize (tags.back).0)

  listed' : IsListed (with_mem t g) (free_size a (us' ++ used_part r ∷ ws))
  listed' = rw (row_assoc us (used_part n) (used_part r ∷ ws)) two_listed

  same_row :
      (y : Ptr)
      → heads a (us' ++ used_part r ∷ ws) y ≡ heads a (us ++ used_part n ∷ free_part r ∷ ws) y
  same_row y = rw (row_assoc us (used_part n) (used_part r ∷ ws)) (
      ground (
        arith,
        heads-append a us (used_part n ∷ used_part r ∷ ws) y,
        heads-append a us (used_part n ∷ free_part r ∷ ws) y,
      ))

  pub split-IsOpen :
      IsOpen (split t (stop a us) n (header_size + r)) a us n true false (free_part r ∷ ws)
  split-IsOpen = rw split-mem record {
    lay = lay;
    tags =
        HasTags-frame g (insert_free (with_mem t g) at_rest).mem a us n (free_part r ∷ ws) lay true
          false tags
          (λ y i. rw rest_block_lem at (
            give-SameHeader (with_mem t g) a us' r ws us'_sized o.lay.back o.lay.even low' whole'
              rest_size listed' y (same_row y ∙ i)));
    front = o.front;
    back = (refl, o.back);
    listed =
        rw (row_assoc us (used_part n) (free_part r ∷ ws), rest_block_lem) at
          (give-IsListed (with_mem t g) a us' r ws us'_sized o.lay.back o.lay.even low' whole'
            rest_size listed' (λ e. lay.real (omega (arith, rest_block_lem, stop-le a us)))
            (omega (arith, small a us (n + header_size + r) ws o.lay)));
  }
