-- ===== src/ThreadCache/Ids.antt =====
-- The ids and the registry of src/thread_cache.rs: one cache for an id, until the counter wraps.
use ferrum_alloc.Base.{
  ℕ, zero, suc, ◌+◌, ◌-◌, ◌%◌, ◌^◌, ◌≤◌, ◌<◌, ◌≡◌, ◌≢◌, ap, ◌∙◌, arith, some, none, Option,
}
use ferrum_alloc.Memory.{Ptr, null, update}
use ferrum_alloc.Platform.{Os, page_size, os_alloc, tls_get}
use ferrum_alloc.ThreadCache.{Threads, max_threads, no_key, get_or_create}

-- A registered cache carries the id that it is registered under, which has been given out.
pub record IsRegistered (ts : Threads) : Type 0 where
  pub own :
      (i : ℕ)
      → ts.registry i ≢ null
      → (i < ts.next_thread_id) × (i < max_threads) × ((ts.caches (ts.registry i)).id ≡ i)

-- A thread without a cache, once the key exists.
record IsNew (os : Os) (s : os.State) (ts : Threads) : Type 0 where
  keyed : ts.tls_key ≢ no_key
  unset : tls_get os s (ts.tls_key % 2 ^ 32) ≡ null

module _ (os : Os) (s : os.State) (ts : Threads) where
  -- While fewer than `2 ^ 16 - 1` ids have been given out, `get_or_create` keeps every registered
  -- cache under its own id, if the system hands out a page that is not one of the registered
  -- caches.
  pub get_or_create-IsRegistered :
      ts.next_thread_id < 2 ^ 16 - 1
      → ((i : ℕ) → ts.registry i ≢ null → ts.registry i ≢ (os_alloc os s page_size).0)
      → IsRegistered ts
      → IsRegistered (get_or_create os s ts).2
  unfolding get_or_create update
  get_or_create-IsRegistered small fresh v = record {
    own = λ i real. ground (arith, v.own i, fresh i);
  }

  refused :
      IsNew os s ts
      → max_threads ≤ ts.next_thread_id
      → get_or_create os s ts
        ≡ (none, s, record ts { next_thread_id = (ts.next_thread_id + 1) % 2 ^ 16 })
  unfolding get_or_create
  refused new many = ground (arith, new.keyed, new.unset)

-- `k` calls from threads without a cache.
unfoldable pub calls : (os : Os) → os.State → ℕ → Threads → Threads
calls os s zero ts = ts
calls os s (suc k) ts = calls os s k (get_or_create os s ts).2

module _ (os : Os) (s : os.State) where
  calls-refused :
      (k : ℕ) (ts : Threads)
      → ts.tls_key ≢ no_key
      → tls_get os s (ts.tls_key % 2 ^ 32) ≡ null
      → max_threads ≤ ts.next_thread_id
      → ts.next_thread_id + k ≡ 2 ^ 16
      → 0 < k
      → calls os s k ts ≡ record ts { next_thread_id = 0 }
  unfolding calls
  calls-refused zero ts keyed unset many sum pos = absurd (omega arith)
  calls-refused (suc zero) ts keyed unset many sum pos =
      ap (λ (r : Option Ptr × os.State × Threads). r.2)
        (refused os s ts (record { keyed = keyed; unset = unset }) many)
      ∙ ap (λ (n : ℕ). record ts { next_thread_id = n }) (omega arith)
  calls-refused (suc (suc k)) ts keyed unset many sum pos =
      let next : (ts.next_thread_id + 1) % 2 ^ 16 ≡ ts.next_thread_id + 1 = omega arith in
      let stepped : (get_or_create os s ts).2
          ≡ record ts { next_thread_id = ts.next_thread_id + 1 } =
        ap (λ (r : Option Ptr × os.State × Threads). r.2)
          (refused os s ts (record { keyed = keyed; unset = unset }) many)
        ∙ ap (λ (n : ℕ). record ts { next_thread_id = n }) next in
      ap (λ (t : Threads). calls os s (suc k) t) stepped
      ∙ calls-refused (suc k) (record ts { next_thread_id = ts.next_thread_id + 1 }) keyed unset
          (omega arith) (omega arith) (omega arith)

  -- Once all ids are gone, each further call of a thread without a cache counts on: after enough
  -- of them the counter has wrapped, and the next thread is given id 0 again, in place of the
  -- cache registered there, if the system hands out a page.
  pub get_or_create-reuse :
      (ts : Threads)
      → ts.tls_key ≢ no_key
      → tls_get os s (ts.tls_key % 2 ^ 32) ≡ null
      → max_threads ≤ ts.next_thread_id
      → ts.next_thread_id < 2 ^ 16
      → (os_alloc os s page_size).0 ≢ null
      → let p = (os_alloc os s page_size).0 in
        let (result, s1, after) = get_or_create os s (calls os s (2 ^ 16 - ts.next_thread_id) ts) in
        (result ≡ some p) × (after.registry 0 ≡ p) × ((after.caches p).id ≡ 0)
  unfolding get_or_create update
  get_or_create-reuse ts keyed unset many few real =
      let wrapped =
        calls-refused (2 ^ 16 - ts.next_thread_id) ts keyed unset many (omega arith)
          (omega arith) in
      rw wrapped (ground arith, ground arith, ground arith)
