-- ===== src/Api/Tests.antt =====
-- Requests to src/api.rs over a system that maps every region at the same address.
use ferrum_alloc.Base.{
  ℕ, ◌+◌, ◌-◌, ◌*◌, ◌≤◌, ◌<◌, ◌≡◌, refl, false, none, some, ◌⊎◌, inr, [], ◌∷◌, arith,
}
use ferrum_alloc.Memory.{Ptr, update}
use ferrum_alloc.Page.{empty}
use ferrum_alloc.Platform.{Os, page_size, map_failed, os_alloc}
use ferrum_alloc.Arena.{Arena, fresh, meta_ptr, page_addr}
use ferrum_alloc.SizeClass.{class_to_size, size_to_class, slots_per_page}
use ferrum_alloc.Slab
use ferrum_alloc.Slab.{init_page, take_first}
use ferrum_alloc.Slab.Slots.{IsPage, init_page-IsPage}
use ferrum_alloc.Huge.{huge_alloc, huge_usable_size}
use ferrum_alloc.Huge.Laws.{total}
use ferrum_alloc.ThreadCache.{new_cache, no_key, get_or_create}
use ferrum_alloc.Api.Global.{Global, global_mem}
use ferrum_alloc.Api.Malloc.{ferrum_malloc, put_cache}
use ferrum_alloc.Api.Free.{ferrum_free, ferrum_usable_size}
use ferrum_alloc.Api.Realloc.{zero_bytes, ferrum_calloc}
use ferrum_alloc.Api.Routes.{
  ready, untouched, ferrum_calloc-ferrum_malloc, ferrum_malloc-no_arena, ferrum_malloc-huge,
}
use ferrum_alloc.Api.Small.{IsServing, ferrum_malloc-small}

abbrev pub system : Ptr → Os
system base = record {
  State = ℕ;
  mmap = λ s len. (base, s + len);
  munmap = λ s p len. s - len;
  key_create = λ s. (7, s);
  getspecific = λ s key. 0;
  setspecific = λ s key value. s;
}

abbrev pub globals : Global
globals = record {
  arena_init = false;
  arena = none;
  slab = Slab.new;
  tlsf = none;
  threads = record {
    next_thread_id = 0;
    tls_key = no_key;
    registry = λ _. 0;
    caches = λ _. new_cache 0;
  };
  heap = record { mem = λ _. 5; metas = λ _. empty };
  arena_ids = 1;
}

abbrev pub arena : Arena
arena = fresh 1048576 1

ferrum_malloc-no_arena_example :
    ferrum_malloc (system map_failed) 1 0 (untouched globals) 100 ≡ none
unfolding os_alloc
ferrum_malloc-no_arena_example =
    ferrum_malloc-no_arena (system map_failed) 1 0 globals 100 refl refl (omega arith) (omega arith)

ferrum_malloc-huge_example :
    let (p, s1, m) = huge_alloc (system 8388608) 0 globals.heap.mem 300000 in
    let g1 = global_mem (ready globals arena) m in
    let (found, s2, ts) = get_or_create (system 8388608) s1 globals.threads in
    let usable = huge_usable_size m p in
    (ferrum_malloc (system 8388608) 1 0 (ready globals arena) 300000 ≡ some (p, s1, g1))
    × (p ≡ 8388608 + page_size)
    × (ferrum_usable_size (system 8388608) s1 g1 p ≡ some (usable, s1, g1))
    × (300000 ≤ usable)
    × (usable < 300000 + page_size)
    × (ferrum_free (system 8388608) s1 g1 p ≡ some (s2 - total 300000, record g1 { threads = ts }))
ferrum_malloc-huge_example =
    ferrum_malloc-huge (system 8388608) 1 0 globals arena 300000 (omega arith) (omega arith)
      (λ e. omega arith) (λ e. omega arith) (inr (omega arith))

ferrum_calloc-ferrum_malloc_example :
    let (p, s1, m) = huge_alloc (system 8388608) 0 globals.heap.mem 300000 in
    let g1 = global_mem (ready globals arena) m in
    let z = zero_bytes m p (3 * 100000) in
    (ferrum_calloc (system 8388608) 1 0 (ready globals arena) 3 100000
      ≡ some (p, s1, global_mem g1 z))
    × ((i : ℕ) → 8 * i + 8 ≤ 3 * 100000 → z (p + 8 * i) ≡ 0)
    × ((x : Ptr) → (x < p) ⊎ (p + 3 * 100000 ≤ x) → z x ≡ m x)
ferrum_calloc-ferrum_malloc_example =
    let (p, s1, m) = huge_alloc (system 8388608) 0 globals.heap.mem 300000 in
    ferrum_calloc-ferrum_malloc (system 8388608) 1 0 (ready globals arena) 3 100000 p s1
      (global_mem (ready globals arena) m) (omega arith)
      (λ e. omega (arith, ferrum_malloc-huge_example.1)) ferrum_malloc-huge_example.0

-- The same system for a thread whose cache is at 65536, with a new page of 1024-byte slots.
abbrev thread : Os
thread = record (system 8388608) { getspecific = λ s key. 65536 }

abbrev with_page : Global
with_page = record globals {
  threads = record {
    next_thread_id = 1;
    tls_key = 7;
    registry = λ _. 65536;
    caches = λ _. record (new_cache 0) { slab = record { partial_pages = λ _. meta_ptr arena 5 } };
  };
  heap = init_page globals.heap (meta_ptr arena 5) (page_addr arena 5) 21 0;
}

with_page-IsServing : IsServing with_page arena 65536 21 5 (0 ∷ 1 ∷ 2 ∷ 3 ∷ [])
unfolding slots_per_page init_page update page_addr meta_ptr
with_page-IsServing = record {
  idle = refl;
  sized = refl;
  above = omega arith;
  below = omega arith;
  entry = refl;
  place = refl;
  page = init_page-IsPage globals.heap (meta_ptr arena 5) (page_addr arena 5) 21 0 (omega arith);
}

ferrum_malloc-small_example :
    let c = with_page.threads.caches 65536 in
    let (p, s1, h1) = take_first c.slab with_page.heap 21 in
    let g1 =
      put_cache (record (ready with_page arena) { heap = h1 }) 65536 (record c { slab = s1 }) in
    (ferrum_malloc thread 1 0 (ready with_page arena) 1000 ≡ some (p, 0, g1))
    × (p ≡ page_addr arena 5 + 0 * class_to_size 21)
    × (p + class_to_size 21 ≤ page_addr arena 5 + page_size)
    × (1000 ≤ class_to_size 21)
    × (ferrum_usable_size thread 0 g1 p ≡ some (class_to_size 21, 0, g1))
    × IsPage h1 (meta_ptr arena 5) 21 (1 ∷ 2 ∷ 3 ∷ [])
unfolding size_to_class
ferrum_malloc-small_example =
    ferrum_malloc-small thread 1 0 with_page arena 21 5 0 (1 ∷ 2 ∷ 3 ∷ []) (λ e. omega arith)
      (λ e. omega arith) with_page-IsServing 1000 (omega arith) refl
