-- ===== src/Api/Medium/Served.antt =====
-- A request of src/api.rs that the TLSF allocator serves, and its way back.
use ferrum_alloc.Base.{ℕ, ◌≤◌, ◌<◌, ◌≡◌, ◌≢◌, ap, ◌∙◌, sym, subst, some, List, arith}
use ferrum_alloc.Memory.{Ptr, null}
use ferrum_alloc.Page.{Heap, set_mem}
use ferrum_alloc.Platform.{Os}
use ferrum_alloc.SizeClass.{slab_max_size}
use ferrum_alloc.Arena.{Arena}
use ferrum_alloc.Huge.{huge_alloc_threshold}
use ferrum_alloc.ThreadCache.{get_or_create}
use ferrum_alloc.Tlsf.Allocator
use ferrum_alloc.Tlsf.Allocator.{Tlsf}
use ferrum_alloc.Tlsf.Pool.{Part, stop}
use ferrum_alloc.Tlsf.Pool.State.{IsPool}
use ferrum_alloc.Tlsf.Pool.RoundTrip.{alloc-free}
use ferrum_alloc.Tlsf.Pool.Given.{alloc-IsGiven, given-usable_size, given-inside}
use ferrum_alloc.Tlsf.Pool.Place.{place, alloc-place, free-place}
use ferrum_alloc.Api.Global.{Global, put_tlsf}
use ferrum_alloc.Api.Malloc.{ferrum_malloc}
use ferrum_alloc.Api.Free.{ferrum_free, ferrum_usable_size}
use ferrum_alloc.Api.Medium.{
  serving, tlsf_of, IsPlaced, HasPool, IsPlaced-IsLarge, ferrum_malloc-tlsf, usable_size-large,
  ferrum_free-large,
}

-- The pool stays where it is.
pub IsPlaced-put :
    (h : Heap) (a : Arena) (t t1 : Tlsf)
    → place t1 ≡ place t
    → IsPlaced h a t
    → IsPlaced (set_mem h t1.mem) a t1
IsPlaced-put h a t t1 same v = record {
  sized = v.sized;
  start = ap (λ (r : Ptr × Ptr). r.0) same ∙ v.start;
  end = ap (λ (r : Ptr × Ptr). r.1) same ∙ v.end;
  large = v.large;
}

module _ (os : Os) (fuel : ℕ) (s : os.State) (g : Global) (a : Arena) (t : Tlsf) (ps : List Part)
    (v : HasPool g.heap a t ps) (size : ℕ) (above : slab_max_size < size)
    (below : size < huge_alloc_threshold)
    (served : (Allocator.alloc (tlsf_of g.heap t) size).0 ≢ null) where
  -- In an initialised allocator, a request above the slab sizes and below the huge ones that the
  -- TLSF allocator serves gets its block: `ferrum_usable_size` gives at least the size asked for,
  -- and `ferrum_free` leaves the blocks of the pool as they were before.
  pub ferrum_malloc-ferrum_free :
      let (p, t1) = Allocator.alloc (tlsf_of g.heap t) size in
      let g1 = put_tlsf (serving g a t) t1 in
      let usable = Allocator.usable_size t1.mem p in
      let (found, s1, ts) = get_or_create os s g.threads in
      let t2 = Allocator.free t1 p in
      let g2 = put_tlsf (serving (record g { threads = ts }) a t1) t2 in
      (ferrum_malloc os fuel s (serving g a t) size ≡ some (p, s, g1))
      × (ferrum_usable_size os s g1 p ≡ some (usable, s, g1))
      × (size ≤ usable)
      × (ferrum_free os s g1 p ≡ some (s1, g2))
      × HasPool g2.heap a t2 ps
  ferrum_malloc-ferrum_free =
      let t0 : Tlsf = tlsf_of g.heap t in
      let (p, t1) = Allocator.alloc t0 size in
      let g1 : Global = put_tlsf (serving g a t) t1 in
      let (found, s1, ts) = get_or_create os s g.threads in
      let t2 : Tlsf = Allocator.free t1 p in
      let w =
        alloc-IsGiven t0 t.pool_start ps size v.pool (λ e. omega arith) (omega arith) served in
      let inside = given-inside t.pool_start ps size (p, t1) w in
      let place1 = alloc-place t0 size in
      let placed1 = IsPlaced-put g.heap a t t1 place1 v.placed in
      let start1 : t1.pool_start ≡ t.pool_start = ap (λ (r : Ptr × Ptr). r.0) place1 in
      let end1 : t1.pool_end ≡ t.pool_end = ap (λ (r : Ptr × Ptr). r.1) place1 in
      let (large, own) =
        IsPlaced-IsLarge g1.heap a t1 p placed1 (omega (arith, inside, start1))
          (omega (arith, inside, end1, v.ends)) in
      let place2 = free-place t1 p in
      let start2 : t.pool_start ≡ t2.pool_start =
        sym (ap (λ (r : Ptr × Ptr). r.0) place2 ∙ start1) in
      let end2 : t2.pool_end ≡ t.pool_end = ap (λ (r : Ptr × Ptr). r.1) place2 ∙ end1 in
      let pool =
        alloc-free t0 t.pool_start ps size v.pool (λ e. omega arith) (omega arith) served in
      (
        ferrum_malloc-tlsf os fuel s g a t size above below served,
        rw own at (usable_size-large os s (put_tlsf g t1) a t1 p large),
        given-usable_size t.pool_start ps size (p, t1) w,
        rw own at (ferrum_free-large os s (put_tlsf g t1) a t1 p large),
        record {
          placed = IsPlaced-put g1.heap a t1 t2 place2 placed1;
          pool = subst (λ (b : Ptr). IsPool t2 b ps) start2 pool;
          ends = omega (arith, v.ends, end2, ap (λ (b : Ptr). stop b ps) start2);
        },
      )
