-- ===== src/Huge/Tests.antt =====
-- src/huge.rs over a system that maps every region at the same address.
use ferrum_alloc.Base.{ℕ, ◌+◌, ◌-◌, ◌^◌, ◌≡◌, refl, arith}
use ferrum_alloc.Memory.{Mem}
use ferrum_alloc.Platform.{Os, page_size, align_up, mmap_alloc, os_alloc}
use ferrum_alloc.Huge.{huge_alloc, huge_usable_size}
use ferrum_alloc.Huge.Laws.{total, huge_alloc-wrap}

-- The state is the number of bytes that are mapped.
abbrev system : Os
system = record {
  State = ℕ;
  mmap = λ s len. (1048576, s + len);
  munmap = λ s p len. s - len;
  key_create = λ s. (7, s);
  getspecific = λ s key. 0;
  setspecific = λ s key value. s;
}

abbrev zeros : Mem
zeros = λ _. 0

huge_alloc_round : (huge_alloc system 0 zeros 300000).0 ≡ 1052672
unfolding huge_alloc os_alloc mmap_alloc align_up
huge_alloc_round = refl

huge_alloc-wrap_example :
    let (p, s1, m1) = huge_alloc system 0 zeros (2 ^ 64 - 1) in
    (total (2 ^ 64 - 1) ≡ page_size)
    × (p ≡ 1048576 + total (2 ^ 64 - 1))
    × (huge_usable_size m1 p ≡ 0)
huge_alloc-wrap_example =
    huge_alloc-wrap system 0 zeros (2 ^ 64 - 1) (omega arith) (omega arith) (λ e. omega arith)
      (λ e. omega arith)
