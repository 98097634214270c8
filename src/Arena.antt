-- ===== src/Arena.antt =====
-- src/arena.rs: a 2 MB region cut into pages, handed out in order. The `ArenaMeta` on page 0 is part
-- of the record; `id` is given by the caller's counter.
pub mod Pages
pub mod Marks
mod Tests
use ferrum_alloc.Base.{
  ℕ, zero, suc, ◌+◌, ◌-◌, ◌*◌, ◌/◌, ◌%◌, ◌^◌, Bool, Option, none, some, ltb, leb, ◌==◌, ◌&&◌, ◌||◌,
  if◌then◌else◌,
}
use ferrum_alloc.Memory.{Ptr, null, Mem}
use ferrum_alloc.Page.{PageMeta, empty, Heap, set_meta}
use ferrum_alloc.Platform.{Os, default_arena_size, page_size, os_alloc, os_free}

abbrev pub pages_per_arena : ℕ
pages_per_arena = default_arena_size / page_size

abbrev pub meta_pages : ℕ
meta_pages = 5

abbrev pub data_start_offset : ℕ
data_start_offset = meta_pages * page_size

-- `size_of::<PageMeta>()`: 8 bytes of small fields and three pointers.
abbrev pub page_meta_size : ℕ
page_meta_size = 32

pub record Arena : Type 0 where
  pub base : Ptr
  pub total_size : ℕ
  pub id : ℕ
  pub meta_total_size : ℕ
  pub next_free_page : ℕ
  pub alloc_count : ℕ

unfoldable pub meta_ptr : Arena → ℕ → Ptr
meta_ptr a page_index = a.base + page_size + page_index * page_meta_size

unfoldable pub meta_index : Arena → Ptr → ℕ
meta_index a meta = (meta - (a.base + page_size)) / page_meta_size

unfoldable pub page_addr : Arena → ℕ → Ptr
page_addr a page_index = a.base + page_index * page_size

-- The loop that writes the first `n` entries of the `PageMeta` array.
unfoldable pub init_metas : Arena → ℕ → Heap → Heap
init_metas a zero h = h
init_metas a (suc n) h = set_meta (init_metas a n h) (meta_ptr a n) empty

-- `fetch_add` on `NEXT_ARENA_ID`: the id given, and the counter after it.
abbrev pub next_arena_id : ℕ → ℕ × ℕ
next_arena_id counter = (counter, (counter + 1) % 2 ^ 32)

-- The record that `new` writes at `base`.
abbrev pub fresh : (base id : ℕ) → Arena
fresh base id = record {
  base = base;
  total_size = default_arena_size;
  id = id;
  meta_total_size = default_arena_size;
  next_free_page = meta_pages;
  alloc_count = 0;
}

module _ (os : Os) where
  -- With the arena, the heap and the counter of arena ids.
  unfoldable pub new : os.State → Heap → ℕ → Option (Arena × Heap × ℕ) × os.State
  unfolding init_metas
  new s h counter =
      let (base, s1) = os_alloc os s default_arena_size in
      let (id, counter1) = next_arena_id counter in
      let a = fresh base id in
      if base == null then (none, s1) else (some (a, init_metas a pages_per_arena h, counter1), s1)

  unfoldable pub drop : os.State → Arena → os.State
  drop s a = os_free os s a.base a.total_size

unfoldable pub alloc_page : Arena → Option (Ptr × Ptr) × Arena
alloc_page a =
    let page_idx = a.next_free_page in
    if leb pages_per_arena page_idx then (none, a) else (
      some (meta_ptr a page_idx, page_addr a page_idx),
      record a {
        next_free_page = (a.next_free_page + 1) % 2 ^ 16;
        alloc_count = (a.alloc_count + 1) % 2 ^ 32;
      },
    )

-- The loop of `alloc` that marks `n` pages from `i` on as large.
unfoldable pub mark_large : Arena → (n i : ℕ) → Heap → Heap
mark_large a zero i h = h
mark_large a (suc n) i h =
    mark_large a n (i + 1)
      (set_meta h (meta_ptr a i) (record (h.metas (meta_ptr a i)) { size_class = 0xFF }))

unfoldable pub alloc : Arena → Heap → ℕ → Ptr × Arena × Heap
unfolding mark_large
alloc a h size =
    let pages_needed = (size + page_size - 1) % 2 ^ 64 / page_size in
    let start_page = a.next_free_page in
    let end_page = start_page + pages_needed in
    let a1 = record a {
      next_free_page = end_page % 2 ^ 16;
      alloc_count = (a.alloc_count + 1) % 2 ^ 32;
    } in
    if size == 0
    then (null, a, h)
    else if ltb pages_per_arena end_page
    then (null, a, h)
    else (page_addr a start_page, a1, mark_large a pages_needed start_page h)

unfoldable pub reset : Arena → Arena
reset a = record a { next_free_page = meta_pages; alloc_count = 0 }

unfoldable pub ptr_to_page_index : Arena → Ptr → ℕ
ptr_to_page_index a p =
    if ltb p (a.base + data_start_offset) || leb (a.base + a.total_size) p
    then 0
    else (p - a.base) / page_size

unfoldable pub bytes_used : Arena → ℕ
bytes_used a = (a.next_free_page - meta_pages) * page_size

unfoldable pub bytes_remaining : Arena → ℕ
bytes_remaining a = (pages_per_arena - a.next_free_page) * page_size

abbrev pub capacity : Arena → ℕ
capacity a = (pages_per_arena - meta_pages) * page_size

unfoldable pub contains : Arena → Ptr → Bool
contains a p = leb a.base p && ltb p (a.base + a.total_size)
