-- ===== src/Arena/Tests.antt =====
-- The theorems of src/arena.rs at a new arena.
use ferrum_alloc.Base.{ℕ, ◌+◌, ◌≤◌, ◌<◌, ◌≡◌, refl, ◌⊎◌, arith}
use ferrum_alloc.Memory.{null}
use ferrum_alloc.Page.{Heap, empty}
use ferrum_alloc.Platform.{page_size}
use ferrum_alloc.Arena.{Arena, fresh, page_addr, alloc, bytes_remaining}
use ferrum_alloc.Arena.Pages.{IsArena, alloc-IsArena}

abbrev arena : Arena
arena = fresh 1048576 1

abbrev heap : Heap
heap = record { mem = λ _. 0; metas = λ _. empty }

arena-IsArena : IsArena arena
arena-IsArena = record { sized = refl; above = omega arith; below = omega arith }

alloc-IsArena_example :
    let (p, a1, h1) = alloc arena heap 10000 in
    IsArena a1
    × ((p ≡ null)
          × (a1 ≡ arena)
          × (h1 ≡ heap)
          × ((◌≡◌ {A = ℕ} 10000 0) ⊎ (bytes_remaining arena < 10000))
        ⊎ (p ≡ page_addr arena 5)
          × (0 < 10000)
          × (p + 10000 ≤ page_addr arena a1.next_free_page)
          × (page_addr arena a1.next_free_page < p + 10000 + page_size)
          × (page_addr arena a1.next_free_page ≤ 1048576 + arena.total_size))
alloc-IsArena_example = alloc-IsArena arena heap 10000 arena-IsArena (omega arith)
