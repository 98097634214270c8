-- ===== src/Tlsf/Block.antt =====
-- The block headers of src/tlsf.rs in memory: `prev_phys_size` at the block's address,
-- `size_and_flags` 8 bytes on, and in a free block the links `prev` and `next` behind the header.
pub mod Words
use ferrum_alloc.Base.{ℕ, ◌+◌, ◌-◌, Bool, not, bit_and, bit_or, ◌==◌}
use ferrum_alloc.Base.Word.{not_size}
use ferrum_alloc.Memory.{Ptr, Mem, update}
use ferrum_alloc.Tlsf.Mapping.{header_size}

abbrev pub f_free : ℕ
f_free = 1

abbrev pub f_prev_free : ℕ
f_prev_free = 2

abbrev pub size_mask : ℕ
size_mask = not_size (bit_or f_free f_prev_free)

-- The addresses of the fields.
abbrev pub prev_phys_size : Ptr → Ptr
prev_phys_size block = block

abbrev pub size_and_flags : Ptr → Ptr
size_and_flags block = block + 8

abbrev pub payload : Ptr → Ptr
payload block = block + header_size

abbrev pub link_prev : Ptr → Ptr
link_prev block = payload block

abbrev pub link_next : Ptr → Ptr
link_next block = payload block + 8

abbrev pub from_payload : Ptr → Ptr
from_payload p = p - header_size

unfoldable pub size : Mem → Ptr → ℕ
size m block = bit_and (m (size_and_flags block)) size_mask

unfoldable pub set_size : Mem → Ptr → ℕ → Mem
set_size m block s =
    update m (size_and_flags block)
      (bit_or s (bit_and (m (size_and_flags block)) (not_size size_mask)))

unfoldable pub is_free : Mem → Ptr → Bool
is_free m block = not (bit_and (m (size_and_flags block)) f_free == 0)

unfoldable pub prev_is_free : Mem → Ptr → Bool
prev_is_free m block = not (bit_and (m (size_and_flags block)) f_prev_free == 0)

unfoldable pub set_free : Mem → Ptr → Mem
set_free m block = update m (size_and_flags block) (bit_or (m (size_and_flags block)) f_free)

unfoldable pub mark_used : Mem → Ptr → Mem
mark_used m block =
    update m (size_and_flags block) (bit_and (m (size_and_flags block)) (not_size f_free))

unfoldable pub mark_prev_free : Mem → Ptr → Mem
mark_prev_free m block =
    update m (size_and_flags block) (bit_or (m (size_and_flags block)) f_prev_free)

unfoldable pub mark_prev_used : Mem → Ptr → Mem
mark_prev_used m block =
    update m (size_and_flags block) (bit_and (m (size_and_flags block)) (not_size f_prev_free))

abbrev pub next_phys : Mem → Ptr → Ptr
next_phys m block = payload block + size m block

abbrev pub prev_phys : Mem → Ptr → Ptr
prev_phys m block = block - (m (prev_phys_size block) + header_size)
