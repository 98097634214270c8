-- ===== src/Memory.antt =====
-- Memory as the program sees it: 64-bit words at addresses that are multiples of 8, with 0 for the
-- null pointer. A `u16` at such an address is the low half-word (the targets are little-endian).
pub mod Access
use ferrum_alloc.Base.{ℕ, ◌+◌, ◌*◌, ◌/◌, ◌%◌, ◌==◌, if◌then◌else◌}

abbrev pub Ptr : Type 0
Ptr = ℕ

abbrev pub null : Ptr
null = 0

abbrev pub Mem : Type 0
Mem = Ptr → ℕ

-- An array, and an entry written over.
unfoldable pub update {ℓ} : {A : Type ℓ} → (ℕ → A) → ℕ → A → ℕ → A
update f i v j = if j == i then v else f j

unfoldable pub read_u16 : Mem → Ptr → ℕ
read_u16 m a = m a % 65536

unfoldable pub write_u16 : Mem → Ptr → ℕ → Mem
unfolding update
write_u16 m a v = update m a (m a / 65536 * 65536 + v)
