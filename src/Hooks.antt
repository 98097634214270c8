-- ===== src/Hooks.antt =====
-- The hooks of src/dllmain.rs: the functions that stand in for the process's heap functions. They see
-- src/api.rs through four of its functions, on a state `S`; `none` stands for a null pointer that is
-- read there. The hooked functions themselves are parameters.
pub mod Routing
pub mod Blocks
pub mod Attach
mod Tests
mod BlockTests
use ferrum_alloc.Base.{ℕ, Bool, not, ◌&&◌, Option, none, some, ltb, ◌==◌, if◌then◌else◌}
use ferrum_alloc.Memory.{Ptr, null}
use ferrum_alloc.Platform.{Os}
use ferrum_alloc.Api.Global.{Global}
use ferrum_alloc.Api.Malloc.{ferrum_malloc}
use ferrum_alloc.Api.Free.{ferrum_free, ferrum_usable_size}
use ferrum_alloc.Api.Realloc.{ferrum_realloc}

-- What the hooks call of src/api.rs.
pub record Ferrum (S : Type 0) : Type 0 where
  pub malloc : ℕ → S → Option (Ptr × S)
  pub free : Ptr → S → Option S
  pub usable_size : Ptr → S → Option (ℕ × S)
  pub realloc : Ptr → ℕ → S → Option (Ptr × S)

-- The statics that keep the addresses of the hooked functions, null where there is none.
pub record Originals : Type 0 where
  pub original_heap_alloc : Ptr
  pub original_heap_free : Ptr
  pub original_heap_realloc : Ptr
  pub original_heap_size : Ptr
  pub original_malloc : Ptr
  pub original_free : Ptr

-- A call of the code at an address, with the type that `transmute` gives it.
pub record Code (S : Type 0) : Type 0 where
  pub heap_alloc : Ptr → (hheap dwflags dwbytes : ℕ) → S → Ptr × S
  pub heap_free : Ptr → (hheap dwflags : ℕ) (lpmem : Ptr) → S → ℕ × S
  pub heap_realloc : Ptr → (hheap dwflags : ℕ) (lpmem : Ptr) (dwbytes : ℕ) → S → Ptr × S
  pub heap_size : Ptr → (hheap dwflags : ℕ) (lpmem : Ptr) → S → ℕ × S
  pub free : Ptr → Ptr → S → S

module _ {S : Type 0} (api : Ferrum S) (code : Code S) (o : Originals) where
  unfoldable pub hooked_heap_alloc : (hheap dwflags dwbytes : ℕ) → S → Option (Ptr × S)
  hooked_heap_alloc hheap dwflags dwbytes s = elim (api.malloc dwbytes s) [
    | none ↦ none
    | some (p, s1) ↦ some (
        if p == null && not (o.original_heap_alloc == null)
        then code.heap_alloc o.original_heap_alloc hheap dwflags dwbytes s1
        else (p, s1))
  ]

  unfoldable pub hooked_heap_free : (hheap dwflags : ℕ) (lpmem : Ptr) → S → Option (ℕ × S)
  hooked_heap_free hheap dwflags lpmem s =
      if lpmem == null then some (1, s) else elim (api.usable_size lpmem s) [
        | none ↦ none
        | some (usable, s1) ↦
            if ltb 0 usable
            then elim (api.free lpmem s1) [ none ↦ none | some s2 ↦ some (1, s2) ]
            else if not (o.original_heap_free == null)
            then some (code.heap_free o.original_heap_free hheap dwflags lpmem s1)
            else some (1, s1)
      ]

  unfoldable pub hooked_heap_realloc :
      (hheap dwflags : ℕ) (lpmem : Ptr) (dwbytes : ℕ) → S → Option (Ptr × S)
  hooked_heap_realloc hheap dwflags lpmem dwbytes s =
      if lpmem == null
      then hooked_heap_alloc hheap dwflags dwbytes s
      else elim (api.usable_size lpmem s) [
        | none ↦ none
        | some (usable, s1) ↦
            if ltb 0 usable
            then api.realloc lpmem dwbytes s1
            else if not (o.original_heap_realloc == null)
            then some (code.heap_realloc o.original_heap_realloc hheap dwflags lpmem dwbytes s1)
            else some (null, s1)
      ]

  unfoldable pub hooked_heap_size : (hheap dwflags : ℕ) (lpmem : Ptr) → S → Option (ℕ × S)
  hooked_heap_size hheap dwflags lpmem s =
      if lpmem == null then some (0, s) else elim (api.usable_size lpmem s) [
        | none ↦ none
        | some (usable, s1) ↦
            if ltb 0 usable
            then some (usable, s1)
            else if not (o.original_heap_size == null)
            then some (code.heap_size o.original_heap_size hheap dwflags lpmem s1)
            else some (0, s1)
      ]

  unfoldable pub hooked_malloc : ℕ → S → Option (Ptr × S)
  hooked_malloc size s = api.malloc size s

  unfoldable pub hooked_free : Ptr → S → Option S
  hooked_free p s = if p == null then some s else elim (api.usable_size p s) [
    | none ↦ none
    | some (usable, s1) ↦
        if ltb 0 usable
        then api.free p s1
        else some (if not (o.original_free == null) then code.free o.original_free p s1 else s1)
  ]

-- The functions of src/api.rs as they are modelled.
abbrev pub ferrum : (os : Os) → (fuel : ℕ) → Ferrum (os.State × Global)
ferrum os fuel = record {
  malloc = λ n r. elim (ferrum_malloc os fuel r.0 r.1 n) [
    | none ↦ none
    | some (p, s, g) ↦ some (p, (s, g))
  ];
  free = λ p r. elim (ferrum_free os r.0 r.1 p) [ none ↦ none | some (s, g) ↦ some (s, g) ];
  usable_size = λ p r. elim (ferrum_usable_size os r.0 r.1 p) [
    | none ↦ none
    | some (n, s, g) ↦ some (n, (s, g))
  ];
  realloc = λ p n r. elim (ferrum_realloc os fuel r.0 r.1 p n) [
    | none ↦ none
    | some (q, s, g) ↦ some (q, (s, g))
  ];
}
