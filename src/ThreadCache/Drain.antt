-- ===== src/ThreadCache/Drain.antt =====
-- Draining the remote frees (src/thread_cache.rs) frees each block of the stack once, in order.
use ferrum_alloc.Base.{
  ℕ, zero, suc, ◌<◌, ◌≡◌, ◌≢◌, Bool, true, false, ◌||◌, List, [], ◌∷◌, refl, ap, ◌∙◌, leb, arith,
  ◌==◌, length, some,
}
use ferrum_alloc.Memory.{Ptr, null, Mem, update, write_u16}
use ferrum_alloc.Page.{Heap}
use ferrum_alloc.Arena.{Arena}
use ferrum_alloc.Slab
use ferrum_alloc.Slab.{Slab, push_partial_page, revive_if_full, push_slot}
use ferrum_alloc.ThreadCache.{
  ThreadCache, Threads, max_threads, remote_free_push, drain_loop, drain_remote_frees,
}

abbrev pub has : Ptr → List Ptr → Bool
has a [] = false
has a (b ∷ bs) = (a == b) || has a bs

-- From `top` the first words of the distinct nodes `ns` lead to null.
abbrev pub IsStack : Mem → (top : Ptr) → List Ptr → Type 0
IsStack m top [] = top ≡ null
IsStack m top (n ∷ ns) = (top ≡ n) × (n ≢ null) × (has n ns ≡ false) × IsStack m (m n) ns

-- The blocks freed one after the other by the owner.
unfoldable pub free_all : List Ptr → Slab → Heap → Arena → Slab × Heap
free_all [] s h a = (s, h)
free_all (n ∷ ns) s h a = let (s1, h1) = Slab.free s h a n in free_all ns s1 h1 a

-- A free writes no word but the first of its block.
free-mem :
    (s : Slab) (h : Heap) (a : Arena) (p x : ℕ) → x ≢ p → (Slab.free s h a p).1.mem x ≡ h.mem x
unfolding Slab.free revive_if_full push_slot push_partial_page write_u16 update
free-mem s h a p x ne = ground arith

pub IsStack-frame :
    (m g : Mem) (ns : List Ptr) (top : Ptr)
    → IsStack m top ns
    → ((x : Ptr) → has x ns ≡ true → g x ≡ m x)
    → IsStack g top ns
IsStack-frame m g [] top st same = st
IsStack-frame m g (n ∷ ns) top (e, real, new, rest) same = (
  e,
  real,
  new,
  rw (same n (ground arith)) (IsStack-frame m g ns (m n) rest (λ x i. same x (ground arith))),
)

drain_loop-free_all :
    (fuel : ℕ) (s : Slab) (h : Heap) (a : Arena) (ns : List Ptr) (top : Ptr)
    → IsStack h.mem top ns
    → length ns < fuel
    → drain_loop fuel s h a top ≡ some (free_all ns s h a)
unfolding drain_loop free_all
drain_loop-free_all zero s h a ns top st enough = absurd (omega arith)
drain_loop-free_all (suc fuel) s h a [] top st enough =
    let at : (top == null) ≡ true = ground arith in rw at
drain_loop-free_all (suc fuel) s h a (n ∷ ns) top (e, real, new, rest) enough =
    let at : (top == null) ≡ false = ground arith in
    let kept =
      IsStack-frame h.mem (Slab.free s h a n).1.mem ns (h.mem n) rest
        (λ x i. free-mem s h a n x (λ q. ground arith)) in
    rw (at, e) (drain_loop-free_all fuel _ _ a ns (h.mem n) kept (omega arith))

-- When the remote frees of a cache are a well-formed stack, and given fuel for each of its nodes,
-- the drain empties the stack and its effect on the slab and on memory is that of freeing the
-- stack's blocks one by one, the top first.
pub drain_remote_frees-free_all :
    (fuel : ℕ) (c : ThreadCache) (h : Heap) (a : Arena) (ns : List Ptr)
    → IsStack h.mem c.remote_frees ns
    → length ns < fuel
    → let (s1, h1) = free_all ns c.slab h a in
      drain_remote_frees fuel c h a ≡ some (record c { remote_frees = null; slab = s1 }, h1)
unfolding drain_remote_frees
drain_remote_frees-free_all fuel c h a ns st enough =
    rw (drain_remote_frees, drain_loop-free_all fuel c.slab h a ns c.remote_frees st enough)

module _ (ts : Threads) (h : Heap) (target_id p : ℕ) (ns : List Ptr) where
  abbrev owner : ThreadCache
  owner = ts.caches (ts.registry target_id)

  abbrev pushed : Threads × Heap
  pushed = remote_free_push ts h target_id p

  module _ (known : target_id < max_threads) (real : ts.registry target_id ≢ null) where
    pushed-cache : pushed.0.caches (ts.registry target_id) ≡ record owner { remote_frees = p }
    unfolding remote_free_push update
    pushed-cache =
        let in_range : leb max_threads target_id ≡ false = ground arith in
        let there : (ts.registry target_id == null) ≡ false = ground arith in
        let place : (ts.registry target_id == ts.registry target_id) ≡ true = ground arith in
        rw (in_range, there, place)

    pushed-mem : (x : Ptr) → pushed.1.mem x ≡ update h.mem p owner.remote_frees x
    unfolding remote_free_push
    pushed-mem x =
        let in_range : leb max_threads target_id ≡ false = ground arith in
        let there : (ts.registry target_id == null) ≡ false = ground arith in rw (in_range, there)

    -- What a push from another thread leaves for the owner.
    pushed-IsStack :
        p ≢ null
        → has p ns ≡ false
        → IsStack h.mem owner.remote_frees ns
        → IsStack pushed.1.mem p (p ∷ ns)
    unfolding update
    pushed-IsStack block new st =
        let top : pushed.1.mem p ≡ owner.remote_frees = ground (arith, pushed-mem p) in
        (
          refl,
          block,
          new,
          rw top (
              IsStack-frame h.mem pushed.1.mem ns owner.remote_frees st
                (λ x i. ground (arith, pushed-mem x))),
        )

  -- A block pushed by another thread to the cache of a registered id, and not in its stack
  -- already, is freed by the owner's next drain, before the blocks that were in the stack, given
  -- fuel for each node.
  pub remote_free_push-drain :
      (fuel : ℕ) (a : Arena)
      → target_id < max_threads
      → ts.registry target_id ≢ null
      → p ≢ null
      → has p ns ≡ false
      → IsStack h.mem owner.remote_frees ns
      → suc (length ns) < fuel
      → let (ts1, h1) = remote_free_push ts h target_id p in
        let (s1, h2) = free_all (p ∷ ns) owner.slab h1 a in
        drain_remote_frees fuel (ts1.caches (ts.registry target_id)) h1 a
        ≡ some (record owner { remote_frees = null; slab = s1 }, h2)
  remote_free_push-drain fuel a known real block new st enough =
      let stack = pushed-IsStack known real block new st in
      ap (λ (c : ThreadCache). drain_remote_frees fuel c pushed.1 a) (pushed-cache known real)
      ∙ drain_remote_frees-free_all fuel (record owner { remote_frees = p }) pushed.1 a (p ∷ ns)
          stack enough
