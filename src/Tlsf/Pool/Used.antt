-- ===== src/Tlsf/Pool/Used.antt =====
-- `prepare_used` of src/tlsf.rs on a block that is out of the lists: the rest of a large block becomes
-- a free block, and the block a used one.
use ferrum_alloc.Base.{ℕ, ◌+◌, ◌≡◌, refl, Bool, true, false, List, ◌∷◌, ◌++◌, arith}
use ferrum_alloc.Memory.{Ptr, update}
use ferrum_alloc.Tlsf.Mapping.{header_size}
use ferrum_alloc.Tlsf.Block.{
  size_and_flags, next_phys, mark_used, set_free, mark_prev_used, mark_prev_free,
}
use ferrum_alloc.Tlsf.Block.Words.{
  HasWord, word, mark_used_lem, set_free_lem, mark_prev_used_lem, mark_prev_free_lem,
}
use ferrum_alloc.Tlsf.Allocator.{Tlsf, with_mem}
use ferrum_alloc.Tlsf.Pool.{Part, used_part, stop, NoPair, last_free, head_bytes, head_free}
use ferrum_alloc.Tlsf.Pool.Phys.{NoPair-behind, head-HasWord}
use ferrum_alloc.Tlsf.Pool.Tags.{HasTags-own, HasTags-next, block-IsSize, head-IsSize, row-AllSized}
use ferrum_alloc.Tlsf.Pool.Lists.{heads-own, heads-next, IsListed-word}
use ferrum_alloc.Tlsf.Pool.State.{IsOpen, open-size}

module _ (t : Tlsf) (a : Ptr) (us : List Part) (n : ℕ) (vs : List Part) (free known : Bool)
    (o : IsOpen t a us n free known vs) where
  -- The block changes its flag, and the next one what it knows.
  IsOpen-own :
      (free' : Bool)
      → IsOpen
          (with_mem t
            (update t.mem (size_and_flags (stop a us)) (word n free' (last_free false us))))
          a
          us
          n
          free'
          known
          vs
  IsOpen-own free' = record {
    lay = o.lay;
    tags = HasTags-own t.mem a us n vs o.lay free known o.tags free';
    front = o.front;
    back = o.back;
    listed =
        IsListed-word t a (us ++ used_part n ∷ vs) (row-AllSized a us n vs o.lay) o.lay.even
          o.listed (stop a us) (word n free' (last_free false us))
          (heads-own a us (used_part n) vs);
  }

  IsOpen-next :
      (known' : Bool)
      → NoPair known' vs
      → IsOpen
          (with_mem t (
            update t.mem
              (size_and_flags (stop a us + (header_size + n)))
              (word (head_bytes vs) (head_free vs) known')))
          a
          us
          n
          free
          known'
          vs
  IsOpen-next known' back = record {
    lay = o.lay;
    tags = HasTags-next t.mem a us n vs o.lay free known o.tags known';
    front = o.front;
    back = back;
    listed =
        IsListed-word t a (us ++ used_part n ∷ vs) (row-AllSized a us n vs o.lay) o.lay.even
          o.listed (stop a us + (header_size + n)) (word (head_bytes vs) (head_free vs) known')
          (heads-next a us (used_part n) vs);
  }

  pub open-next_phys : next_phys t.mem (stop a us) ≡ stop a us + (header_size + n)
  open-next_phys = rw (open-size t a us n vs free known o.lay o.tags) (omega arith)

  pub mark_used-IsOpen : IsOpen (with_mem t (mark_used t.mem (stop a us))) a us n false known vs
  mark_used-IsOpen =
      rw
        (mark_used_lem t.mem (stop a us) n free (last_free false us) (block-IsSize a us n vs o.lay)
          o.tags.own)
        (IsOpen-own false)

  pub set_free-IsOpen : IsOpen (with_mem t (set_free t.mem (stop a us))) a us n true known vs
  set_free-IsOpen =
      rw
        (set_free_lem t.mem (stop a us) n free (last_free false us) (block-IsSize a us n vs o.lay)
          o.tags.own)
        (IsOpen-own true)

  pub next-HasWord :
      HasWord t.mem (stop a us + (header_size + n)) (head_bytes vs) (head_free vs) known
  next-HasWord = head-HasWord t.mem (stop a us + (header_size + n)) n known vs o.tags.back

  pub mark_prev_used-IsOpen :
      IsOpen (with_mem t (mark_prev_used t.mem (next_phys t.mem (stop a us)))) a us n free false vs
  mark_prev_used-IsOpen =
      rw
        (
          open-next_phys,
          mark_prev_used_lem t.mem (stop a us + (header_size + n)) (head_bytes vs) (head_free vs)
              known (head-IsSize a us n vs o.lay) next-HasWord,
        )
        (IsOpen-next false (NoPair-behind known false vs o.back refl))

  pub mark_prev_free-IsOpen :
      head_free vs ≡ false
      → IsOpen (with_mem t (mark_prev_free t.mem (next_phys t.mem (stop a us)))) a us n free true vs
  mark_prev_free-IsOpen apart =
      rw
        (
          open-next_phys,
          mark_prev_free_lem t.mem (stop a us + (header_size + n)) (head_bytes vs) (head_free vs)
              known (head-IsSize a us n vs o.lay) next-HasWord,
        )
        (IsOpen-next true (NoPair-behind known true vs o.back (ground arith)))
