-- ===== src/Huge/Laws.antt =====
-- What src/huge.rs promises: a block as large as asked for, that gives back the mapping it came from,
-- and the sizes for which the sum wraps.
use ferrum_alloc.Base.{
  ℕ, ◌+◌, ◌-◌, ◌*◌, ◌%◌, ◌^◌, ◌≤◌, ◌<◌, ◌≡◌, ◌≢◌, refl, true, false, arith, ◌==◌,
}
use ferrum_alloc.Base.Word.{add_size}
use ferrum_alloc.Memory.{Ptr, null, Mem, update}
use ferrum_alloc.Platform.{Os, page_size, map_failed, align_up, os_alloc, os_free, mmap_alloc}
use ferrum_alloc.Platform.Pages.{align_up_fits}
use ferrum_alloc.Huge.{
  total_size, has_magic, write_huge_header, huge_alloc, huge_free, huge_usable_size,
}

header-magic : (m : Mem) (b t : ℕ) → has_magic (write_huge_header m b t) b ≡ true
unfolding has_magic write_huge_header update
header-magic m b t = ground arith

header-total : (m : Mem) (b t : ℕ) → write_huge_header m b t (total_size b) ≡ t
unfolding write_huge_header update
header-total m b t = ground arith

-- A multiple of the page size is its own rounding.
align_up-page : (t : ℕ) → t % 4096 ≡ 0 → t + 4095 < 2 ^ 64 → align_up t page_size ≡ t
align_up-page t h k = let (whole, low, high) = align_up_fits t k in omega arith

-- The length that `huge_alloc` asks for.
abbrev pub total : ℕ → ℕ
total size = align_up (add_size size page_size) page_size

pub total_bounds :
    (size : ℕ)
    → size + 2 * 4096 ≤ 2 ^ 64
    → (size + 4096 ≤ total size)
      × (total size < size + 2 * 4096)
      × (total size + 4095 < 2 ^ 64)
      × (align_up (total size) page_size ≡ total size)
total_bounds size fits =
    let sum : add_size size page_size ≡ size + 4096 = omega arith in
    let (whole, low, high) = align_up_fits (add_size size page_size) (omega arith) in
    let room : total size + 4095 < 2 ^ 64 = omega arith in
    (omega arith, omega arith, room, align_up-page (total size) whole room)

module _ (os : Os) (s : os.State) (m : Mem) (size : ℕ) where
  abbrev pub region : Ptr × os.State
  region = os.mmap s (total size)

  module _ (fits : size + 2 * 4096 ≤ 2 ^ 64) (ok : region.0 ≢ map_failed)
      (real : region.0 ≢ null) where
    os_alloc-region : os_alloc os s (total size) ≡ region
    unfolding os_alloc mmap_alloc
    os_alloc-region =
        let e : (region.0 == map_failed) ≡ false = ground arith in
        let same = (total_bounds size fits).3 in rw (same, e)

    -- For a size that does not wrap, when the system maps the pages, `huge_alloc` returns the
    -- second page of the mapping: at least `size` bytes and less than a page more are usable, and
    -- `huge_free` unmaps exactly the mapping, whatever happened to the system in between.
    pub huge_alloc-free :
        let (p, s1, m1) = huge_alloc os s m size in
        (p ≡ region.0 + page_size)
        × (size ≤ huge_usable_size m1 p)
        × (huge_usable_size m1 p < size + page_size)
        × ((s2 : os.State) → huge_free os s2 m1 p ≡ os.munmap s2 region.0 (total size))
    unfolding huge_alloc huge_free huge_usable_size os_free
    huge_alloc-free =
        let e : (region.0 == null) ≡ false = ground arith in
        let (low, high, room, same) = total_bounds size fits in
        let b : ℕ = region.0 in
        let base : b + 4096 - 4096 ≡ b = omega arith in
        let far : (b + 4096 == null) ≡ false = ground arith in
        rw (os_alloc-region, e)
          (
            refl,
            rw (far, base, header-magic, header-total) (omega arith),
            rw (far, base, header-magic, header-total) (omega arith),
            rw (far, base, header-magic, header-total, e, same) (λ s2. refl),
          )

  module _ (big : 2 ^ 64 < size + 4096) (word : size < 2 ^ 64) (ok : region.0 ≢ map_failed)
      (real : region.0 ≢ null) where
    total-wrap : total size ≡ 4096
    total-wrap =
        let sum : add_size size page_size ≡ size + 4096 - 2 ^ 64 = omega arith in
        let (whole, low, high) = align_up_fits (add_size size page_size) (omega arith) in
        omega arith

    -- For the 4095 largest sizes the sum wraps: when the system maps the pages, `huge_alloc` maps
    -- one page and returns the address just past it, where nothing is usable, instead of null.
    pub huge_alloc-wrap :
        let (p, s1, m1) = huge_alloc os s m size in
        (total size ≡ page_size) × (p ≡ region.0 + total size) × (huge_usable_size m1 p ≡ 0)
    unfolding huge_alloc huge_usable_size os_alloc mmap_alloc
    huge_alloc-wrap =
        let e : (region.0 == null) ≡ false = ground arith in
        let f : (region.0 == map_failed) ≡ false = ground arith in
        let page : align_up (total size) page_size ≡ total size =
          align_up-page (total size) (omega (arith, total-wrap)) (omega (arith, total-wrap)) in
        let b : ℕ = region.0 in
        let base : b + 4096 - 4096 ≡ b = omega arith in
        let far : (b + 4096 == null) ≡ false = ground arith in
        (
          total-wrap,
          rw (page, f, e) (omega (arith, total-wrap)),
          rw (page, f, e, far, base, header-magic, header-total) (omega (arith, total-wrap)),
        )
