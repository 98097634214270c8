-- ===== src/Huge.antt =====
-- src/huge.rs: allocations straight from the system, with a header on a page of their own.
-- `magic` is the low half of the header's first word and `total_size` its second word.
pub mod Laws
mod Tests
use ferrum_alloc.Base.{ℕ, ◌+◌, ◌-◌, ◌*◌, ◌/◌, ◌%◌, ◌^◌, Bool, ◌==◌, if◌then◌else◌}
use ferrum_alloc.Base.Word.{add_size, sub_size}
use ferrum_alloc.Memory.{Ptr, null, Mem, update}
use ferrum_alloc.Platform.{Os, page_size, align_up, os_alloc, os_free}

abbrev pub huge_alloc_threshold : ℕ
huge_alloc_threshold = 256 * 1024

abbrev pub huge_magic : ℕ
huge_magic = 0x48554745

abbrev pub total_size : Ptr → Ptr
total_size header = header + 8

unfoldable pub has_magic : Mem → (header : Ptr) → Bool
has_magic m header = m header % 2 ^ 32 == huge_magic

unfoldable pub write_huge_header : Mem → (header : Ptr) (total : ℕ) → Mem
write_huge_header m header total =
    update (update m header (m header / 2 ^ 32 * 2 ^ 32 + huge_magic)) (total_size header) total

module _ (os : Os) where
  unfoldable pub huge_alloc : os.State → Mem → ℕ → Ptr × os.State × Mem
  huge_alloc s m size =
      let total = align_up (add_size size page_size) page_size in
      let (base, s1) = os_alloc os s total in
      if base == null then (null, s1, m) else (base + page_size, s1, write_huge_header m base total)

  -- The `unreachable!` of a debug build is not modelled.
  unfoldable pub huge_free : os.State → Mem → Ptr → os.State
  huge_free s m p =
      let base = p - page_size in
      if p == null
      then s
      else if has_magic m base
      then os_free os s base (m (total_size base))
      else s

unfoldable pub huge_usable_size : Mem → Ptr → ℕ
huge_usable_size m p =
    let base = p - page_size in
    if p == null
    then 0
    else if has_magic m base
    then sub_size (m (total_size base)) page_size
    else 0
