-- ===== src/Hooks/Tests.antt =====
-- The hooks of src/dllmain.rs at concrete states.
use ferrum_alloc.Base.{
  ℕ, ◌+◌, ◌-◌, ◌≤◌, ◌≡◌, ◌≢◌, inr, refl, some, none, Option, List, [], ◌∷◌, ◌==◌, if◌then◌else◌,
  arith,
}
use ferrum_alloc.Memory.{Ptr, null}
use ferrum_alloc.Huge.{huge_alloc, huge_usable_size}
use ferrum_alloc.Huge.Laws.{total}
use ferrum_alloc.Platform.{Os}
use ferrum_alloc.ThreadCache.{get_or_create}
use ferrum_alloc.Api.Global.{Global, global_mem}
use ferrum_alloc.Api.Routes.{ready, ferrum_malloc-huge}
use ferrum_alloc.Api.Tests.{system, globals, arena}
use ferrum_alloc.Hooks.{
  Originals, Code, ferrum, hooked_heap_alloc, hooked_heap_free, hooked_heap_size,
}
use ferrum_alloc.Hooks.Routing.{heap_alloc-heap_free}
use ferrum_alloc.Hooks.Attach.{
  Library, Symbol, kernel32, msvcrt, heap_alloc, heap_free, heap_realloc, heap_size, c_malloc,
  c_free, Detour, to_hooked_heap_alloc, to_hooked_heap_free, to_hooked_heap_realloc,
  to_hooked_malloc, Loader, dll_main, hook, hook_kernel32, hook_msvcrt,
}

-- Functions at the addresses 1 to 6 that fail.
abbrev pub originals : Originals
originals = record {
  original_heap_alloc = 1;
  original_heap_free = 2;
  original_heap_realloc = 3;
  original_heap_size = 4;
  original_malloc = 5;
  original_free = 6;
}

abbrev pub code : {S : Type 0} → Code S
code = record {
  heap_alloc = λ f h w n s. (0, s);
  heap_free = λ f h w p s. (0, s);
  heap_realloc = λ f h w p n s. (0, s);
  heap_size = λ f h w p s. (0, s);
  free = λ f p s. s;
}

abbrev os : Os
os = system 8388608

-- The block of 300000 bytes that the system's mapping at 8 MB gives, and the state with it.
abbrev block : Ptr
block = (huge_alloc os 0 globals.heap.mem 300000).0

abbrev with_block : ℕ × Global
with_block =
    let (p, s1, m) = huge_alloc os 0 globals.heap.mem 300000 in
    (s1, global_mem (ready globals arena) m)

abbrev usable : ℕ
usable = huge_usable_size (huge_alloc os 0 globals.heap.mem 300000).2 block

block-real : block ≢ null
block-real e = omega (
  arith,
  (ferrum_malloc-huge os 1 0 globals arena 300000 (omega arith) (omega arith) (λ e. omega arith)
      (λ e. omega arith) (inr (omega arith))).1,
)

block-usable : (ferrum os 1).usable_size block with_block ≡ some (usable, with_block)
block-usable = rw (
  ferrum,
  with_block,
  (ferrum_malloc-huge os 1 0 globals arena 300000 (omega arith) (omega arith) (λ e. omega arith)
      (λ e. omega arith) (inr (omega arith))).2,
)

heap_alloc-heap_free_example :
    let (p, s1, m) = huge_alloc os 0 globals.heap.mem 300000 in
    let g1 = global_mem (ready globals arena) m in
    let (found, s2, ts) = get_or_create os s1 globals.threads in
    let n = huge_usable_size m p in
    (hooked_heap_alloc (ferrum os 1) code originals 9 8 300000 (0, ready globals arena)
      ≡ some (p, (s1, g1)))
    × (hooked_heap_size (ferrum os 1) code originals 9 8 p (s1, g1) ≡ some (n, (s1, g1)))
    × (300000 ≤ n)
    × (hooked_heap_free (ferrum os 1) code originals 9 8 p (s1, g1)
        ≡ some (1, (s2 - total 300000, record g1 { threads = ts })))
heap_alloc-heap_free_example =
    heap_alloc-heap_free os 1 0 globals code originals arena 300000 9 8 (omega arith) (omega arith)
      (λ e. omega arith) (λ e. omega arith) (inr (omega arith))

-- A loader of a process where only the heap functions are exported by kernel32, and only `malloc` by
-- msvcrt, whose `free` is missing; MinHook keeps what it was given, and fails for `HeapSize`.
abbrev exports : Ptr → Symbol → Option Ptr
exports p heap_alloc = if p == 10 then some 100 else none
exports p heap_free = if p == 10 then some 101 else none
exports p heap_realloc = if p == 10 then some 102 else none
exports p heap_size = if p == 10 then some 103 else none
exports p c_malloc = if p == 20 then some 104 else none
exports p c_free = none

abbrev handle : Library → Ptr
handle kernel32 = 10
handle msvcrt = 20

abbrev loader : Loader (List (Ptr × Detour))
loader = record {
  get_module_handle = λ l w. handle l;
  get_proc_address = λ p f w. exports p f;
  create_hook = λ p d w. if p == 103 then (none, w) else (some (p + 1000), (p, d) ∷ w);
  enable_all_hooks = λ w. w;
  dll_process_attach = 1;
}

attached : dll_main loader 1 ([], originals) ≡ (
  1,
  (104, to_hooked_malloc)
      ∷ (102, to_hooked_heap_realloc)
      ∷ (101, to_hooked_heap_free)
      ∷ (100, to_hooked_heap_alloc)
      ∷ [],
  record originals {
    original_heap_alloc = 1100;
    original_heap_free = 1101;
    original_heap_realloc = 1102;
    original_heap_size = 0;
    original_malloc = 1104;
  },
)
unfolding dll_main hook_kernel32 hook_msvcrt hook
attached = refl

detached : dll_main loader 0 ([], originals) ≡ (1, [], originals)
unfolding dll_main
detached = refl
