-- ===== src/ThreadCache/Tests.antt =====
-- src/thread_cache.rs over a system that maps every region at the same address.
use ferrum_alloc.Base.{ℕ, ◌-◌, ◌^◌, ◌≡◌, refl, ◌==◌, if◌then◌else◌, List, [], ◌∷◌, some, arith}
use ferrum_alloc.Memory.{Ptr}
use ferrum_alloc.Page.{Heap, PageMeta, null_slot}
use ferrum_alloc.Platform.{Os, page_size, os_alloc}
use ferrum_alloc.Arena.{Arena}
use ferrum_alloc.ThreadCache.{
  ThreadCache, Threads, new_cache, get_or_create, drain_remote_frees, remote_free_push,
}
use ferrum_alloc.ThreadCache.Drain.{
  IsStack, free_all, drain_remote_frees-free_all, remote_free_push-drain,
}
use ferrum_alloc.ThreadCache.Ids.{
  IsRegistered, calls, get_or_create-IsRegistered, get_or_create-reuse,
}

abbrev system : Os
system = record {
  State = ℕ;
  mmap = λ s len. (65536, s);
  munmap = λ s p len. s;
  key_create = λ s. (7, s);
  getspecific = λ s key. 0;
  setspecific = λ s key value. s;
}

abbrev threads : ℕ → Threads
threads n = record { next_thread_id = n; tls_key = 7; registry = λ _. 0; caches = λ _. new_cache 0 }

threads-IsRegistered : IsRegistered (threads 0)
threads-IsRegistered = record { own = λ i real. absurd (real refl) }

get_or_create-IsRegistered_example : IsRegistered (get_or_create system 0 (threads 0)).2
get_or_create-IsRegistered_example =
    get_or_create-IsRegistered system 0 (threads 0) (omega arith) (λ i real. absurd (real refl))
      threads-IsRegistered

get_or_create-reuse_example :
    let p = (os_alloc system 0 page_size).0 in
    let (result, s1, after) =
      get_or_create system 0 (calls system 0 (2 ^ 16 - 200) (threads 200)) in
    (result ≡ some p) × (after.registry 0 ≡ p) × ((after.caches p).id ≡ 0)
unfolding os_alloc
get_or_create-reuse_example =
    get_or_create-reuse system 0 (threads 200) (λ e. omega arith) refl (omega arith) (omega arith)
      (λ e. omega arith)

-- A full page of 1024-byte slots, whose slots at 1072128 and 1070080 another thread has freed.
abbrev full_page : PageMeta
full_page = record {
  size_class = 21;
  owner_id = 0;
  used_slots = 4;
  free_list_head = null_slot;
  next_page = 0;
  prev_page = 0;
  page_addr = 1069056;
}

abbrev heap : Heap
heap = record { mem = λ a. if a == 1072128 then 1070080 else 0; metas = λ _. full_page }

abbrev arena : Arena
arena = record {
  base = 1048576;
  total_size = 2097152;
  id = 1;
  meta_total_size = 2097152;
  next_free_page = 6;
  alloc_count = 1;
}

abbrev cache : ThreadCache
cache = record (new_cache 0) { remote_frees = 1072128 }

abbrev remote : List Ptr
remote = 1072128 ∷ 1070080 ∷ []

remote-IsStack : IsStack heap.mem cache.remote_frees remote
remote-IsStack = (refl, (λ e. omega arith), refl, (refl, (λ e. omega arith), refl, refl))

drain_remote_frees-free_all_example :
    let (s1, h1) = free_all remote cache.slab heap arena in
    drain_remote_frees 3 cache heap arena ≡ some (record cache { remote_frees = 0; slab = s1 }, h1)
drain_remote_frees-free_all_example =
    drain_remote_frees-free_all 3 cache heap arena remote remote-IsStack (omega arith)

-- The owner is registered under id 0, and a third slot is pushed.
abbrev registered : Threads
registered = record { next_thread_id = 1; tls_key = 7; registry = λ _. 65536; caches = λ _. cache }

remote_free_push-drain_example :
    let (ts1, h1) = remote_free_push registered heap 0 1069056 in
    let (s1, h2) = free_all (1069056 ∷ remote) cache.slab h1 arena in
    drain_remote_frees 4 (ts1.caches 65536) h1 arena
    ≡ some (record cache { remote_frees = 0; slab = s1 }, h2)
remote_free_push-drain_example =
    remote_free_push-drain registered heap 0 1069056 remote 4 arena (omega arith) (λ e. omega arith)
      (λ e. omega arith) refl remote-IsStack (omega arith)
