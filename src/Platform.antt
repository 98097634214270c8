-- ===== src/Platform.antt =====
-- src/platform.rs on Linux: rounding to pages, and memory from `mmap`. The system calls are not part
-- of the program, so an `Os` is a parameter of every operation that makes one.
pub mod Pages
pub mod Windows
mod Tests
use ferrum_alloc.Base.{ℕ, ◌+◌, ◌-◌, ◌*◌, ◌^◌, Bool, bit_and, ◌==◌, if◌then◌else◌}
use ferrum_alloc.Base.Word.{add_size, sub_size, not_size}
use ferrum_alloc.Memory.{Ptr, null}

-- The calls of the current thread: `mmap` with no address, protection read and write, private and anonymous; `munmap`;
-- and the thread-local storage of pthreads.
pub record Os : Type 1 where
  pub State : Type 0
  pub mmap : State → (len : ℕ) → Ptr × State
  pub munmap : State → Ptr → (len : ℕ) → State
  pub key_create : State → ℕ × State
  pub getspecific : State → (key : ℕ) → Ptr
  pub setspecific : State → (key : ℕ) → Ptr → State

abbrev pub default_arena_size : ℕ
default_arena_size = 2 * 1024 * 1024

abbrev pub page_size : ℕ
page_size = 4096

abbrev pub map_failed : Ptr
map_failed = 2 ^ 64 - 1

unfoldable pub align_up : (value align : ℕ) → ℕ
align_up value align = bit_and (sub_size (add_size value align) 1) (not_size (sub_size align 1))

module _ (os : Os) where
  open os use {State, mmap, munmap}

  unfoldable pub mmap_alloc : State → ℕ → Ptr × State
  mmap_alloc s len =
      let (result, s1) = mmap s len in if result == map_failed then (null, s1) else (result, s1)

  unfoldable pub os_alloc : State → ℕ → Ptr × State
  unfolding mmap_alloc
  os_alloc s size = mmap_alloc s (align_up size page_size)

  unfoldable pub os_free : State → Ptr → ℕ → State
  os_free s p size = if p == null then s else munmap s p (align_up size page_size)

  -- The assertion that `pthread_key_create` succeeds is not modelled.
  abbrev pub tls_create : State → ℕ × State
  tls_create s = os.key_create s

  abbrev pub tls_get : State → ℕ → Ptr
  tls_get s key = os.getspecific s key

  abbrev pub tls_set : State → ℕ → Ptr → State
  tls_set s key value = os.setspecific s key value
