-- ===== src/Platform/Windows.antt =====
-- The Windows variant of src/platform.rs. `VirtualAlloc` and its kin are a parameter; `none` stands
-- for the panic of an assertion.
use ferrum_alloc.Base.{ℕ, Option, none, some, bit_or, ◌==◌, if◌then◌else◌}
use ferrum_alloc.Memory.{Ptr, null}
use ferrum_alloc.Platform.{page_size, align_up}

-- The functions that the module declares for linking, over a state.
pub record Windows : Type 1 where
  pub State : Type 0
  pub virtual_alloc :
      State → (lp_address : Ptr) (dw_size fl_allocation_type fl_protect : ℕ) → Ptr × State
  pub virtual_free : State → (lp_address : Ptr) (dw_size dw_free_type : ℕ) → State
  pub tls_alloc : State → ℕ × State
  pub tls_get_value : State → (dw_tls_index : ℕ) → Ptr
  pub tls_set_value : State → (dw_tls_index : ℕ) → Ptr → State

abbrev pub mem_commit : ℕ
mem_commit = 0x00001000

abbrev pub mem_reserve : ℕ
mem_reserve = 0x00002000

abbrev pub mem_release : ℕ
mem_release = 0x00008000

abbrev pub page_readwrite : ℕ
page_readwrite = 0x04

module _ (win : Windows) where
  abbrev pub commit : win.State → ℕ → Ptr × win.State
  commit s len = win.virtual_alloc s null len (bit_or mem_commit mem_reserve) page_readwrite

  -- The size is not passed on.
  abbrev pub release : win.State → Ptr → ℕ → win.State
  release s p len = win.virtual_free s p 0 mem_release

  unfoldable pub windows_os_alloc : win.State → ℕ → Ptr × win.State
  windows_os_alloc s len = commit s (align_up len page_size)

  unfoldable pub windows_os_free : win.State → Ptr → ℕ → win.State
  windows_os_free s p len = if p == null then s else release s p (align_up len page_size)

  unfoldable pub windows_tls_create : win.State → Option (ℕ × win.State)
  windows_tls_create s =
      let (key, s1) = win.tls_alloc s in if key == 0xFFFFFFFF then none else some (key, s1)

  unfoldable pub windows_tls_get : win.State → ℕ → Ptr
  windows_tls_get s key = win.tls_get_value s key

  unfoldable pub windows_tls_set : win.State → ℕ → Ptr → win.State
  windows_tls_set s key value = win.tls_set_value s key value
