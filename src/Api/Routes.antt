-- ===== src/Api/Routes.antt =====
-- Which allocator of src/api.rs serves a request, and that a block goes back to the one it came from.
use ferrum_alloc.Base.{
  ℕ, zero, suc, ◌+◌, ◌*◌, ◌/◌, ◌%◌, ◌^◌, ◌≤◌, ◌<◌, ◌≡◌, ◌≢◌, refl, ap, ◌∙◌, true, false, none, some,
  Option, ◌⊎◌, inl, inr, arith, ◌==◌, leb,
}
use ferrum_alloc.Memory.{Ptr, null, Mem, update}
use ferrum_alloc.Page.{set_mem}
use ferrum_alloc.Platform.{Os, page_size, map_failed, default_arena_size, os_alloc}
use ferrum_alloc.SizeClass.{slab_max_size}
use ferrum_alloc.SizeClass.Bounds.{size_to_class-IsTightest}
use ferrum_alloc.Arena
use ferrum_alloc.Arena.{Arena}
use ferrum_alloc.Huge.{huge_alloc_threshold, huge_alloc, huge_free, huge_usable_size}
use ferrum_alloc.Huge.Laws.{total, total_bounds, huge_alloc-free}
use ferrum_alloc.ThreadCache.{no_key, get_or_create}
use ferrum_alloc.Api.Global.{Global, global_mem, ensure_init, init_with}
use ferrum_alloc.Api.Malloc.{ferrum_malloc, small_malloc, malloc_with, malloc_slow}
use ferrum_alloc.Api.Free.{
  ferrum_free, ferrum_usable_size, free_with, free_slow, cache_free, is_small, locked_size,
}
use ferrum_alloc.Api.Realloc.{zero_words, zero_bytes, zeroed, ferrum_calloc, low_bytes}

-- The words from `p` on.
zero_words-zero : (k i : ℕ) (m : Mem) (p : Ptr) → i < k → zero_words k m p (p + 8 * i) ≡ 0
unfolding zero_words update
zero_words-zero zero i m p lt = absurd (omega arith)
zero_words-zero (suc k) i m p lt = ground (arith, zero_words-zero k i m p)

zero_words-outside :
    (k : ℕ) (m : Mem) (p x : Ptr) → (x < p) ⊎ (p + 8 * k ≤ x) → zero_words k m p x ≡ m x
unfolding zero_words update
zero_words-outside zero m p x out = refl
zero_words-outside (suc k) m p x out = ground (arith, zero_words-outside k m p x)

low_bytes-none : (r old new : ℕ) → r ≡ 0 → low_bytes r old new ≡ old
low_bytes-none r old new e = rw e (omega arith)

zero_bytes-zero : (n i : ℕ) (m : Mem) (p : Ptr) → 8 * i + 8 ≤ n → zero_bytes m p n (p + 8 * i) ≡ 0
unfolding zero_bytes update
zero_bytes-zero n i m p lt =
    let other : (p + 8 * i == p + 8 * (n / 8)) ≡ false = ground arith in
    rw other (zero_words-zero (n / 8) i m p (omega arith))

zero_bytes-outside :
    (n : ℕ) (m : Mem) (p x : Ptr) → (x < p) ⊎ (p + n ≤ x) → zero_bytes m p n x ≡ m x
unfolding zero_bytes update
zero_bytes-outside n m p x out =
    ground (arith, low_bytes-none (n % 8) (m (p + 8 * (n / 8))) 0, zero_words-outside (n / 8) m p x)

-- The states after and before the arena `a` is in place.
abbrev pub ready : Global → Arena → Global
ready g a = record g { arena_init = true; arena = some a }

abbrev pub untouched : Global → Global
untouched g = record g { arena_init = false; arena = none }

-- A block outside the arena.
module _ (os : Os) (s : os.State) (g : Global) (a : Arena) (p : Ptr) (real : p ≢ null)
    (out : Arena.contains a p ≡ false) where
  usable_size_outside :
      ferrum_usable_size os s (ready g a) p ≡ some (huge_usable_size g.heap.mem p, s, ready g a)
  unfolding ferrum_usable_size locked_size ensure_init
  usable_size_outside = let block : (p == null) ≡ false = ground arith in rw (block, out)

  free_with_outside :
      (found : Option Ptr)
      → free_with os found s (ready g a) p ≡ some (huge_free os s g.heap.mem p, ready g a)
  unfolding free_with cache_free is_small free_slow
  free_with_outside none = rw out
  free_with_outside (some tc) = rw out

module _ (os : Os) (s : os.State) (g : Global) (a : Arena) (p : Ptr) (real : p ≢ null)
    (out : Arena.contains a p ≡ false) where
  free_outside :
      let (found, s1, ts) = get_or_create os s g.threads in
      ferrum_free os s (ready g a) p
      ≡ some (huge_free os s1 g.heap.mem p, ready (record g { threads = ts }) a)
  unfolding ferrum_free ensure_init
  free_outside =
      let block : (p == null) ≡ false = ground arith in
      let (found, s1, ts) = get_or_create os s g.threads in
      rw block (free_with_outside os s1 (record g { threads = ts }) a p real out found)

module _ (os : Os) (fuel : ℕ) (s : os.State) (g : Global) where
  -- When `ferrum_malloc` gives a block of `count * size` bytes, `ferrum_calloc` gives the same block
  -- with each of its whole words 0, and no word outside the block has changed.
  pub ferrum_calloc-ferrum_malloc :
      (count size : ℕ) (p : Ptr) (s1 : os.State) (g1 : Global)
      → count * size < 2 ^ 64
      → p ≢ null
      → ferrum_malloc os fuel s g (count * size) ≡ some (p, s1, g1)
      → let m = zero_bytes g1.heap.mem p (count * size) in
        (ferrum_calloc os fuel s g count size ≡ some (p, s1, global_mem g1 m))
        × ((i : ℕ) → 8 * i + 8 ≤ count * size → m (p + 8 * i) ≡ 0)
        × ((x : Ptr) → (x < p) ⊎ (p + count * size ≤ x) → m x ≡ g1.heap.mem x)
  unfolding ferrum_calloc zeroed zero_bytes update
  ferrum_calloc-ferrum_malloc count size p s1 g1 fits real e =
      let small : leb (2 ^ 64) (count * size) ≡ false = ground arith in
      let block : (p == null) ≡ false = ground arith in
      (
        rw (small, e, block),
        λ i. zero_bytes-zero (count * size) i g1.heap.mem p,
        zero_bytes-outside (count * size) g1.heap.mem p,
      )

  init_failed :
      (os_alloc os s default_arena_size).0 ≡ null
      → ensure_init os s (untouched g) ≡ ((os_alloc os s default_arena_size).1, untouched g)
  unfolding ensure_init init_with Arena.new
  init_failed failed =
      let null_base : ((os_alloc os s default_arena_size).0 == null) ≡ true = ground arith in
      rw null_base

  small_none :
      (s1 : os.State) (size class : ℕ)
      → g.threads.tls_key ≡ no_key
      → small_malloc os fuel s1 (untouched g) size class ≡ none
  unfolding small_malloc malloc_with malloc_slow get_or_create
  small_none s1 size class unset =
      let test : (g.threads.tls_key == no_key) ≡ true = ground arith in
      rw (small_malloc, get_or_create, test)

  -- When the arena is not there yet and cannot be mapped, and no key for the caches exists,
  -- `ferrum_malloc` reads a null pointer for every size below the threshold of huge allocations
  -- except 0.
  pub ferrum_malloc-no_arena :
      (size : ℕ)
      → g.threads.tls_key ≡ no_key
      → (os_alloc os s default_arena_size).0 ≡ null
      → 0 < size
      → size < huge_alloc_threshold
      → ferrum_malloc os fuel s (untouched g) size ≡ none
  unfolding ferrum_malloc malloc_slow
  ferrum_malloc-no_arena size unset failed pos low =
      let some_size : (size == 0) ≡ false = ground arith in
      let not_huge : leb huge_alloc_threshold size ≡ false = ground arith in
      let s1 : os.State = (os_alloc os s default_arena_size).1 in
      elim (size_to_class-IsTightest size) [
        | inl (fits, class, found, _) ↦
            let small : leb size slab_max_size ≡ true = ground arith in
            rw (some_size, not_huge, small, found, init_failed failed)
              (small_none s1 size class unset)
        | inr (large, found) ↦
            let not_small : leb size slab_max_size ≡ false = ground arith in
            rw (some_size, not_huge, not_small, init_failed failed)
      ]

  -- In an initialised allocator a request from the threshold of huge allocations up to 2 ^ 64 - 8192
  -- bytes gets a mapping of its own: the block has at least the size asked for and less than a page
  -- more, and freeing it unmaps exactly its mapping, if the system maps the pages, outside the arena.
  pub ferrum_malloc-huge :
      (a : Arena) (size : ℕ)
      → huge_alloc_threshold ≤ size
      → size + 2 * 4096 ≤ 2 ^ 64
      → (os.mmap s (total size)).0 ≢ map_failed
      → (os.mmap s (total size)).0 ≢ null
      → ((os.mmap s (total size)).0 + total size ≤ a.base)
        ⊎ (a.base + a.total_size ≤ (os.mmap s (total size)).0)
      → let base = (os.mmap s (total size)).0 in
        let (p, s1, m) = huge_alloc os s g.heap.mem size in
        let g1 = global_mem (ready g a) m in
        let (found, s2, ts) = get_or_create os s1 g.threads in
        let usable = huge_usable_size m p in
        (ferrum_malloc os fuel s (ready g a) size ≡ some (p, s1, g1))
        × (p ≡ base + page_size)
        × (ferrum_usable_size os s1 g1 p ≡ some (usable, s1, g1))
        × (size ≤ usable)
        × (usable < size + page_size)
        × (ferrum_free os s1 g1 p
            ≡ some (os.munmap s2 base (total size), record g1 { threads = ts }))
  unfolding ferrum_malloc ensure_init Arena.contains
  ferrum_malloc-huge a size large fits ok real apart =
      let (place, low, high, back) = huge_alloc-free os s g.heap.mem size fits ok real in
      let (p, s1, m) = huge_alloc os s g.heap.mem size in
      let (found, s2, ts) = get_or_create os s1 g.threads in
      let g1 : Global = record g { heap = set_mem g.heap m } in
      let block : p ≢ null = λ e. omega (arith, place) in
      let room : size + 4096 ≤ total size = (total_bounds size fits).0 in
      let out : Arena.contains a p ≡ false = ground (arith, place) in
      let some_size : (size == 0) ≡ false = ground arith in
      let is_huge : leb huge_alloc_threshold size ≡ true = ground arith in
      (
        rw (some_size, is_huge),
        place,
        usable_size_outside os s1 g1 a p block out,
        low,
        high,
        free_outside os s1 g1 a p block out
            ∙ ap (λ (t : os.State). some (t, ready (record g1 { threads = ts }) a)) (back s2),
      )
