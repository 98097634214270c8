-- ===== src/Api/Global.antt =====
-- The global state of src/api.rs and `ensure_init`, run by one thread at a time: the spin lock is
-- free whenever an operation takes it, so it is not part of the state here (Api/Lock has it).
use ferrum_alloc.Base.{ℕ, ◌*◌, Bool, true, Option, none, some, ◌==◌, if◌then◌else◌}
use ferrum_alloc.Memory.{null, Mem}
use ferrum_alloc.Page.{Heap, set_mem}
use ferrum_alloc.Platform.{Os, page_size}
use ferrum_alloc.Arena
use ferrum_alloc.Arena.{Arena}
use ferrum_alloc.Slab
use ferrum_alloc.Slab.{Slab}
use ferrum_alloc.ThreadCache.{Threads, init_tls}
use ferrum_alloc.Tlsf.Allocator
use ferrum_alloc.Tlsf.Allocator.{Tlsf, with_mem, add_pool}

-- `arena` and `tlsf` are `none` while their pointers are null. All memory is in `heap`: the memory of
-- the record `tlsf` is put in place by each call.
pub record Global : Type 0 where
  pub arena_init : Bool
  pub arena : Option Arena
  pub slab : Slab
  pub tlsf : Option Tlsf
  pub threads : Threads
  pub heap : Heap
  pub arena_ids : ℕ

abbrev pub global_mem : Global → Mem → Global
global_mem g m = record g { heap = set_mem g.heap m }

abbrev pub put_tlsf : Global → Tlsf → Global
put_tlsf g t = record g { tlsf = some t; heap = set_mem g.heap t.mem }

abbrev pub tlsf_pool_size : ℕ
tlsf_pool_size = 128 * page_size

-- The pool of the TLSF allocator, taken from a new arena.
unfoldable pub init_tlsf : Global → Arena → Global
init_tlsf g a =
    let (pool, a1, h1) = Arena.alloc a g.heap tlsf_pool_size in
    let g1 = record g { arena = some a1; heap = h1 } in
    if pool == null then g1 else put_tlsf g1 (add_pool (Allocator.new h1.mem) pool tlsf_pool_size)

module _ (os : Os) where
  -- What `ensure_init` does with the result of `Arena::new`.
  unfoldable pub init_with : Option (Arena × Heap × ℕ) → os.State → Global → os.State × Global
  init_with none s g = (s, g)
  init_with (some (a, h, ids)) s g =
      let (s1, ts) = init_tls os s g.threads in
      let g1 = record g {
        arena_init = true;
        slab = Slab.new;
        threads = ts;
        heap = h;
        arena_ids = ids;
      } in
      (s1, init_tlsf g1 a)

  unfoldable pub ensure_init : os.State → Global → os.State × Global
  ensure_init s g =
      let (made, s1) = Arena.new os s g.heap g.arena_ids in
      if g.arena_init then (s, g) else init_with made s1 g
