-- ===== src/Tlsf/Pool/State.antt =====
-- The state of the allocator of src/tlsf.rs as a list of the blocks of its pool: between two calls,
-- and while a call has one block out of the lists.
use ferrum_alloc.Base.{
  ℕ, ◌+◌, ◌%◌, ◌^◌, ◌≤◌, ◌≡◌, ◌≢◌, Bool, true, false, ◌&&◌, List, ◌∷◌, ◌++◌, arith,
}
use ferrum_alloc.Memory.{Ptr, null}
use ferrum_alloc.Tlsf.Mapping.{header_size}
use ferrum_alloc.Tlsf.Block.{size, prev_is_free}
use ferrum_alloc.Tlsf.Block.Words.{size_lem, prev_is_free_lem}
use ferrum_alloc.Tlsf.Allocator.{Tlsf, insert_free, remove_free}
use ferrum_alloc.Tlsf.Allocator.Listed.{IsListed}
use ferrum_alloc.Tlsf.Pool.{
  Part, used_part, free_part, stop, free_size, AllSized, NoPair, last_free, Phys,
}
use ferrum_alloc.Tlsf.Pool.Layout.{stop-append, AllSized-split, AllSized-append}
use ferrum_alloc.Tlsf.Pool.Phys.{Phys-split, Phys-join, NoPair-split, NoPair-join}
use ferrum_alloc.Tlsf.Pool.Tags.{IsLayout, HasTags, HasTags-frame, block-IsSize, block-real, small}
use ferrum_alloc.Tlsf.Pool.Lists.{take-IsListed, take-SameHeader, give-IsListed, give-SameHeader}

-- The pool that starts at `a` consists of the blocks `ps`: their headers say so, no two neighbours
-- are free, and the lists hold the free ones.
pub record IsPool (t : Tlsf) (a : Ptr) (ps : List Part) : Type 0 where
  pub real : a ≢ null
  pub even : a % 16 ≡ 0
  pub sized : AllSized ps
  pub bound : stop a ps + header_size ≤ a + 2 ^ 22
  pub tags : Phys t.mem a 0 false ps
  pub apart : NoPair false ps
  pub listed : IsListed t (free_size a ps)

-- The block of `n` bytes between `us` and `vs` is free or not, and in no list; the block behind it
-- takes it for a free one or not.
pub record IsOpen (t : Tlsf) (a : Ptr) (us : List Part) (n : ℕ) (free known : Bool) (vs : List Part)
    : Type 0 where
  pub lay : IsLayout a us n vs
  pub tags : HasTags t.mem a us n free known vs
  pub front : NoPair false us
  pub back : NoPair known vs
  pub listed : IsListed t (free_size a (us ++ used_part n ∷ vs))

-- A pool around one of its blocks.
module _ (t : Tlsf) (a : Ptr) (us : List Part) (p : Part) (vs : List Part) where
  pub IsPool-layout : IsPool t a (us ++ p ∷ vs) → IsLayout a us p.bytes vs
  IsPool-layout v =
      let (s, (low, whole, r)) = AllSized-split us (p ∷ vs) v.sized in
      record {
        real = v.real;
        even = v.even;
        front = s;
        low = low;
        whole = whole;
        back = r;
        bound = rw (stop-append a us (p ∷ vs)) at v.bound;
      }

  pub IsPool-tags : IsPool t a (us ++ p ∷ vs) → HasTags t.mem a us p.bytes p.free p.free vs
  IsPool-tags v =
      let (f, (own, own_prev, back)) = Phys-split t.mem a 0 false us (p ∷ vs) v.tags in
      record { front = f; own = own; own_prev = own_prev; back = back }

  pub IsPool-close :
      IsLayout a us p.bytes vs
      → HasTags t.mem a us p.bytes p.free p.free vs
      → NoPair false us
      → (last_free false us && p.free) ≡ false
      → NoPair p.free vs
      → IsListed t (free_size a (us ++ p ∷ vs))
      → IsPool t a (us ++ p ∷ vs)
  IsPool-close lay tags front apart back listed = record {
    real = lay.real;
    even = lay.even;
    sized = AllSized-append us (p ∷ vs) lay.front (lay.low, lay.whole, lay.back);
    bound = rw (stop-append a us (p ∷ vs)) (lay.bound);
    tags = Phys-join t.mem a 0 false us (p ∷ vs) tags.front (tags.own, tags.own_prev, tags.back);
    apart = NoPair-join false us (p ∷ vs) front (apart, back);
    listed = listed;
  }

module _ (t : Tlsf) (a : Ptr) (us : List Part) (n : ℕ) (vs : List Part) (free known : Bool) where
  -- The block's own header.
  pub open-size :
      IsLayout a us n vs → HasTags t.mem a us n free known vs → size t.mem (stop a us) ≡ n
  open-size lay tags =
      size_lem t.mem (stop a us) n free (last_free false us) (block-IsSize a us n vs lay) tags.own

  pub open-prev_is_free :
      IsLayout a us n vs
      → HasTags t.mem a us n free known vs
      → prev_is_free t.mem (stop a us) ≡ last_free false us
  open-prev_is_free lay tags =
      prev_is_free_lem t.mem (stop a us) n free (last_free false us) (block-IsSize a us n vs lay)
        tags.own

-- A free block is taken out of the lists, and a block is put into them.
module _ (t : Tlsf) (a : Ptr) (us : List Part) (n : ℕ) (vs : List Part) where
  pub remove_free-IsOpen :
      IsPool t a (us ++ free_part n ∷ vs) → IsOpen (remove_free t (stop a us)) a us n true true vs
  remove_free-IsOpen v =
      let lay = IsPool-layout t a us (free_part n) vs v in
      let tags = IsPool-tags t a us (free_part n) vs v in
      let is_size = open-size t a us n vs true true lay tags in
      let (front, (apart, back)) = NoPair-split false us (free_part n ∷ vs) v.apart in
      record {
        lay = lay;
        tags = HasTags-frame t.mem (remove_free t (stop a us)).mem a us n vs lay true true tags (
            take-SameHeader t a us n vs lay.front lay.back lay.even lay.low lay.whole is_size
              v.listed);
        front = front;
        back = back;
        listed =
            take-IsListed t a us n vs lay.front lay.back lay.even lay.low lay.whole is_size
              v.listed;
      }

  pub insert_free-IsPool :
      IsOpen t a us n true true vs
      → last_free false us ≡ false
      → IsPool (insert_free t (stop a us)) a (us ++ free_part n ∷ vs)
  insert_free-IsPool o apart =
      let is_size = open-size t a us n vs true true o.lay o.tags in
      IsPool-close (insert_free t (stop a us)) a us (free_part n) vs o.lay
        (HasTags-frame t.mem (insert_free t (stop a us)).mem a us n vs o.lay true true o.tags (
          give-SameHeader t a us n vs o.lay.front o.lay.back o.lay.even o.lay.low o.lay.whole
            is_size o.listed))
        o.front (ground arith) o.back
        (give-IsListed t a us n vs o.lay.front o.lay.back o.lay.even o.lay.low o.lay.whole is_size
          o.listed (block-real a us n vs o.lay) (small a us n vs o.lay))
