-- ===== src/Tlsf/Pool/Free.antt =====
-- `free` of src/tlsf.rs over the blocks of the pool.
use ferrum_alloc.Base.{
  ℕ, ◌+◌, ◌-◌, ◌≡◌, ◌≢◌, ◌∙◌, sym, subst, Bool, true, false, List, ◌∷◌, ◌++◌, ◌==◌, arith,
}
use ferrum_alloc.Memory.{Ptr, Mem, null, update}
use ferrum_alloc.Tlsf.Mapping.{header_size}
use ferrum_alloc.Tlsf.Block.{prev_phys_size, size, payload, next_phys, set_free, mark_prev_free}
use ferrum_alloc.Tlsf.Allocator.{Tlsf, with_mem, insert_free, merge_next, merge_prev, free}
use ferrum_alloc.Tlsf.Pool.{Part, used_part, free_part, stop, last_free, head_free}
use ferrum_alloc.Tlsf.Pool.Layout.{starts-append, heads_bounds}
use ferrum_alloc.Tlsf.Pool.Phys.{NoPair-split, head-prev}
use ferrum_alloc.Tlsf.Pool.Tags.{next-even, HasTags-frame, row-AllSized}
use ferrum_alloc.Tlsf.Pool.Lists.{heads-own, heads-next, IsListed-prev}
use ferrum_alloc.Tlsf.Pool.State.{
  IsPool, IsOpen, IsPool-layout, IsPool-tags, open-size, insert_free-IsPool,
}
use ferrum_alloc.Tlsf.Pool.Used.{open-next_phys, set_free-IsOpen, mark_prev_free-IsOpen}
use ferrum_alloc.Tlsf.Pool.Coalesce.{coalesce, coalesce-NoPair, coalesce-cong}
use ferrum_alloc.Tlsf.Pool.Merged.{merge_next-IsMergedNext, merge_prev-IsMergedPrev}
use ferrum_alloc.Tlsf.Pool.Owned.{Owned, Owned-header, insert_free-Owned}

-- The last steps of `free`: the next block learns of the free one, which goes into a list.
abbrev put_back : Ptr × Tlsf → Tlsf
put_back (b, t) =
    let next = next_phys t.mem b in
    let m1 = mark_prev_free t.mem next in
    let m2 = update m1 (prev_phys_size next) (size m1 b) in insert_free (with_mem t m2) b

module _ (t : Tlsf) (a : Ptr) (us : List Part) (n : ℕ) (vs : List Part)
    (o : IsOpen t a us n true true vs) where
  abbrev at_next : Ptr
  at_next = stop a us + (header_size + n)

  -- The link back is there already.
  IsOpen-prev : IsOpen (with_mem t (update t.mem (prev_phys_size at_next) n)) a us n true true vs
  unfolding update
  IsOpen-prev = record {
    lay = o.lay;
    tags =
        HasTags-frame t.mem (update t.mem (prev_phys_size at_next) n) a us n vs o.lay true true
          o.tags
          (λ y i. ground (
            arith,
            head-prev t.mem at_next n true vs o.tags.back,
            heads_bounds a (us ++ used_part n ∷ vs) y (row-AllSized a us n vs o.lay) o.lay.even i,
            next-even a us n vs o.lay,
          ));
    front = o.front;
    back = o.back;
    listed =
        IsListed-prev t a (us ++ used_part n ∷ vs) (row-AllSized a us n vs o.lay) o.lay.even
          o.listed at_next n (heads-next a us (used_part n) vs);
  }

put_back-IsPool :
    (t : Tlsf) (a : Ptr) (us : List Part) (n : ℕ) (vs : List Part) (known : Bool)
    → IsOpen t a us n true known vs
    → head_free vs ≡ false
    → last_free false us ≡ false
    → IsPool (put_back (stop a us, t)) a (us ++ free_part n ∷ vs)
put_back-IsPool t a us n vs known o apart apart' =
    let next : Ptr = stop a us + (header_size + n) in
    let t1 = with_mem t (mark_prev_free t.mem next) in
    let o1 : IsOpen t1 a us n true true vs =
      rw (open-next_phys t a us n vs true known o) at
        (mark_prev_free-IsOpen t a us n vs true known o apart) in
    rw (open-next_phys t a us n vs true known o, open-size t1 a us n vs true true o1.lay o1.tags)
      (insert_free-IsPool (with_mem t1 (update t1.mem (prev_phys_size next) n)) a us n vs
        (IsOpen-prev t1 a us n vs o1) apart')

free_steps :
    (t : Tlsf) (b : Ptr)
    → free t (payload b)
      ≡ (let (b1, t1) = merge_next (with_mem t (set_free t.mem b)) b in put_back (merge_prev t1 b1))
unfolding free
free_steps t b =
    let given : (payload b == null) ≡ false = ground arith in
    let here : payload b - header_size ≡ b = omega arith in rw (given, here)

-- A used block is in no list.
used-IsOpen :
    (t : Tlsf) (a : Ptr) (us : List Part) (n : ℕ) (vs : List Part)
    → IsPool t a (us ++ used_part n ∷ vs)
    → IsOpen t a us n false false vs
used-IsOpen t a us n vs v =
    let (front, (apart, back)) = NoPair-split false us (used_part n ∷ vs) v.apart in
    record {
      lay = IsPool-layout t a us (used_part n) vs v;
      tags = IsPool-tags t a us (used_part n) vs v;
      front = front;
      back = back;
      listed = v.listed;
    }

-- `free` of a used block of a pool leaves the pool in which that block is free and every run of free
-- blocks is one block.
pub free-IsPool :
    (t : Tlsf) (a : Ptr) (us : List Part) (n : ℕ) (vs : List Part)
    → IsPool t a (us ++ used_part n ∷ vs)
    → IsPool (free t (payload (stop a us))) a (coalesce (us ++ free_part n ∷ vs))
free-IsPool t a us n vs v =
    let o = used-IsOpen t a us n vs v in
    let t0 = with_mem t (set_free t.mem (stop a us)) in
    let x = merge_next-IsMergedNext t0 a us n vs (set_free-IsOpen t a us n vs false false o) in
    let t1 = (merge_next t0 (stop a us)).1 in
    let y = merge_prev-IsMergedPrev t1 a us x.size' x.behind x.known x.opened in
    let pool =
      put_back-IsPool (merge_prev t1 (stop a us)).1 a y.before y.size' x.behind y.known y.opened
        x.apart y.apart in
    let whole : y.before ++ free_part y.size' ∷ x.behind ≡ coalesce (us ++ free_part n ∷ vs) =
      sym (coalesce-NoPair false (y.before ++ free_part y.size' ∷ x.behind) pool.apart)
      ∙ y.same
      ∙ coalesce-cong us (free_part x.size' ∷ x.behind) (free_part n ∷ vs) x.same in
    rw (free_steps, x.address, y.address)
      (subst (IsPool (put_back (stop a y.before, (merge_prev t1 (stop a us)).1)) a) whole pool)

-- A word in another used block stays while the block goes into its list.
put_back-mem :
    (t : Tlsf) (a : Ptr) (us : List Part) (n : ℕ) (vs : List Part) (known : Bool)
    → IsOpen t a us n true known vs
    → head_free vs ≡ false
    → (b y : Ptr) → b ≢ stop a us
    → Owned a (us ++ used_part n ∷ vs) b y
    → (put_back (stop a us, t)).mem y ≡ t.mem y
unfolding mark_prev_free update
put_back-mem t a us n vs known o apart b y ne w =
    let next : Ptr = stop a us + (header_size + n) in
    let row : List Part = us ++ used_part n ∷ vs in
    let sized = row-AllSized a us n vs o.lay in
    let t1 = with_mem t (mark_prev_free t.mem next) in
    let o1 : IsOpen t1 a us n true true vs =
      rw (open-next_phys t a us n vs true known o) at
        (mark_prev_free-IsOpen t a us n vs true known o apart) in
    let m2 : Mem = update t1.mem (prev_phys_size next) n in
    let own = Owned-header a row b y sized o.lay.even w next (heads-next a us (used_part n) vs) in
    let put : (insert_free (with_mem t1 m2) (stop a us)).mem y ≡ m2 y =
      insert_free-Owned a row b y sized o.lay.even w (with_mem t1 m2)
        (IsOpen-prev t1 a us n vs o1).listed (stop a us)
        (ground (arith, starts-append a us (used_part n ∷ vs) (stop a us))) (λ e. ne (sym e)) in
    rw (open-next_phys t a us n vs true known o, open-size t1 a us n vs true true o1.lay o1.tags)
      (put ∙ ground (arith, own))

-- `free` of a used block of a pool leaves every word in the other used blocks as it was.
pub free-mem :
    (t : Tlsf) (a : Ptr) (us : List Part) (n : ℕ) (vs : List Part)
    → IsPool t a (us ++ used_part n ∷ vs)
    → (b y : Ptr) → b ≢ stop a us
    → Owned a (us ++ used_part n ∷ vs) b y
    → (free t (payload (stop a us))).mem y ≡ t.mem y
unfolding set_free update
free-mem t a us n vs v b y ne w =
    let o = used-IsOpen t a us n vs v in
    let row : List Part = us ++ used_part n ∷ vs in
    let t0 = with_mem t (set_free t.mem (stop a us)) in
    let x = merge_next-IsMergedNext t0 a us n vs (set_free-IsOpen t a us n vs false false o) in
    let t1 = (merge_next t0 (stop a us)).1 in
    let z = merge_prev-IsMergedPrev t1 a us x.size' x.behind x.known x.opened in
    let own =
      Owned-header a row b y v.sized v.even w (stop a us) (heads-own a us (used_part n) vs) in
    let (same1, w1) = x.kept b y ne w in
    let (same2, w2, ne2) = z.kept b y ne w1 in
    let same0 : t0.mem y ≡ t.mem y = ground (arith, own) in
    let same3 =
      put_back-mem (merge_prev t1 (stop a us)).1 a z.before z.size' x.behind z.known z.opened
        x.apart b y ne2 w2 in
    rw (free_steps, x.address, z.address) (same3 ∙ same2 ∙ same1 ∙ same0)
