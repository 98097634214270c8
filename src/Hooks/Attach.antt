-- ===== src/Hooks/Attach.antt =====
-- `DllMain` of src/dllmain.rs, which puts the hooks in place. The loader and MinHook are parameters.
use ferrum_alloc.Base.{ℕ, Option, none, some, ◌==◌, if◌then◌else◌}
use ferrum_alloc.Memory.{Ptr, null}
use ferrum_alloc.Hooks.{Originals}

pub data Library : Type 0 where
  kernel32 : Library
  msvcrt : Library

-- The names that `GetProcAddress` is asked for.
pub data Symbol : Type 0 where
  heap_alloc : Symbol
  heap_free : Symbol
  heap_realloc : Symbol
  heap_size : Symbol
  c_malloc : Symbol
  c_free : Symbol

-- The hooks, as `create_hook` is given their addresses.
pub data Detour : Type 0 where
  to_hooked_heap_alloc : Detour
  to_hooked_heap_free : Detour
  to_hooked_heap_realloc : Detour
  to_hooked_heap_size : Detour
  to_hooked_malloc : Detour
  to_hooked_free : Detour

-- The loader and MinHook over a state `W`.
pub record Loader (W : Type 0) : Type 0 where
  pub get_module_handle : Library → W → Ptr
  pub get_proc_address : Ptr → Symbol → W → Option Ptr
  pub create_hook : (target : Ptr) (detour : Detour) → W → Option Ptr × W
  pub enable_all_hooks : W → W
  pub dll_process_attach : ℕ

abbrev pub store_heap_alloc : Ptr → Originals → Originals
store_heap_alloc p o = record o { original_heap_alloc = p }

abbrev pub store_heap_free : Ptr → Originals → Originals
store_heap_free p o = record o { original_heap_free = p }

abbrev pub store_heap_realloc : Ptr → Originals → Originals
store_heap_realloc p o = record o { original_heap_realloc = p }

abbrev pub store_heap_size : Ptr → Originals → Originals
store_heap_size p o = record o { original_heap_size = p }

abbrev pub store_malloc : Ptr → Originals → Originals
store_malloc p o = record o { original_malloc = p }

abbrev pub store_free : Ptr → Originals → Originals
store_free p o = record o { original_free = p }

module _ {W : Type 0} (loader : Loader W) where
  -- One `if let Some(addr)`, with the name, the hook and the static of its own; `unwrap_or` gives null.
  unfoldable pub hook :
      (handle : Ptr) (symbol : Symbol) (detour : Detour) (store : Ptr → Originals → Originals)
      → W × Originals
      → W × Originals
  hook handle symbol detour store (w, o) = elim (loader.get_proc_address handle symbol w) [
    | none ↦ (w, o)
    | some addr ↦
        let (made, w1) = loader.create_hook addr detour w in
        (w1, store (elim made [ none ↦ null | some original ↦ original ]) o)
  ]

  unfoldable pub hook_kernel32 : W × Originals → W × Originals
  hook_kernel32 (w, o) =
      let handle = loader.get_module_handle kernel32 w in
      let r1 = hook handle heap_alloc to_hooked_heap_alloc store_heap_alloc (w, o) in
      let r2 = hook handle heap_free to_hooked_heap_free store_heap_free r1 in
      let r3 = hook handle heap_realloc to_hooked_heap_realloc store_heap_realloc r2 in
      let r4 = hook handle heap_size to_hooked_heap_size store_heap_size r3 in
      if handle == null then (w, o) else r4

  unfoldable pub hook_msvcrt : W × Originals → W × Originals
  hook_msvcrt (w, o) =
      let handle = loader.get_module_handle msvcrt w in
      let r1 = hook handle c_malloc to_hooked_malloc store_malloc (w, o) in
      let r2 = hook handle c_free to_hooked_free store_free r1 in
      if handle == null then (w, o) else r2

  unfoldable pub dll_main : (fdw_reason : ℕ) → W × Originals → ℕ × W × Originals
  dll_main fdw_reason (w, o) =
      let (w1, o1) = hook_msvcrt (hook_kernel32 (w, o)) in
      if fdw_reason == loader.dll_process_attach
      then (1, loader.enable_all_hooks w1, o1)
      else (1, w, o)
