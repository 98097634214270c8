-- ===== src/Tlsf/Pool.antt =====
-- The pool of src/tlsf.rs as a list of its blocks in the order of their addresses, and what the
-- boundary tags in memory say of them.
pub mod Layout
pub mod Phys
pub mod Tags
pub mod Shapes
pub mod Lists
pub mod State
pub mod Used
pub mod Split
pub mod Prepare
pub mod Alloc
pub mod Merge
pub mod MergePrev
pub mod Coalesce
pub mod Merged
pub mod Free
pub mod RoundTrip
pub mod Start
pub mod Live
pub mod Owned
pub mod Kept
pub mod Run
pub mod Served
pub mod Client
pub mod Place
pub mod Given
mod Tests
use ferrum_alloc.Base.{
  ℕ, ◌+◌, ◌%◌, ◌≤◌, ◌≡◌, Bool, true, false, ◌&&◌, ◌||◌, List, [], ◌∷◌, ◌==◌, if◌then◌else◌,
}
use ferrum_alloc.Memory.{Ptr, Mem}
use ferrum_alloc.Tlsf.Mapping.{header_size, min_payload}
use ferrum_alloc.Tlsf.Block.{prev_phys_size}
use ferrum_alloc.Tlsf.Block.Words.{HasWord}

-- A block: the bytes of its payload, and whether it is free.
pub record Part : Type 0 where
  pub bytes : ℕ
  pub free : Bool

abbrev pub used_part : ℕ → Part
used_part n = record { bytes = n; free = false }

abbrev pub free_part : ℕ → Part
free_part n = record { bytes = n; free = true }

-- The address behind a block at `a`, and behind a list of blocks.
abbrev pub after : Ptr → Part → Ptr
after a p = a + (header_size + p.bytes)

abbrev pub stop : Ptr → List Part → Ptr
stop a [] = a
stop a (p ∷ ps) = stop (after a p) ps

-- A block of the list stands at `x`; or the sentinel behind the blocks does.
abbrev pub starts : Ptr → List Part → Ptr → Bool
starts a [] x = false
starts a (p ∷ ps) x = (x == a) || starts (after a p) ps x

abbrev pub heads : Ptr → List Part → Ptr → Bool
heads a ps x = starts a ps x || x == stop a ps

-- The size of the free block at `x`, and 0 where there is none.
abbrev pub free_size : Ptr → List Part → Ptr → ℕ
free_size a [] x = 0
free_size a (p ∷ ps) x =
    if x == a then (if p.free then p.bytes else 0) else free_size (after a p) ps x

abbrev pub AllSized : List Part → Type 0
AllSized [] = Unit {0}
AllSized (p ∷ ps) = (min_payload ≤ p.bytes) × (p.bytes % 16 ≡ 0) × AllSized ps

-- No two neighbours are free, the block before the list included.
abbrev pub NoPair : (prev_free : Bool) → List Part → Type 0
NoPair prev_free [] = Unit {0}
NoPair prev_free (p ∷ ps) = ((prev_free && p.free) ≡ false) × NoPair p.free ps

-- The last block, or what was before the list.
abbrev pub last_bytes : ℕ → List Part → ℕ
last_bytes prev [] = prev
last_bytes prev (p ∷ ps) = last_bytes p.bytes ps

abbrev pub last_free : Bool → List Part → Bool
last_free prev_free [] = prev_free
last_free prev_free (p ∷ ps) = last_free p.free ps

-- The first block, or the sentinel.
abbrev pub head_bytes : List Part → ℕ
head_bytes [] = 0
head_bytes (p ∷ ps) = p.bytes

abbrev pub head_free : List Part → Bool
head_free [] = false
head_free (p ∷ ps) = p.free

-- The headers from `a` on describe the blocks, behind a block of `prev` bytes that is free or not.
abbrev pub Front : Mem → Ptr → (prev : ℕ) (prev_free : Bool) → List Part → Type 0
Front m a prev prev_free [] = Unit {0}
Front m a prev prev_free (p ∷ ps) =
    HasWord m a p.bytes p.free prev_free
    × (m (prev_phys_size a) ≡ prev)
    × Front m (after a p) p.bytes p.free ps

-- The same, up to the sentinel.
abbrev pub Phys : Mem → Ptr → (prev : ℕ) (prev_free : Bool) → List Part → Type 0
Phys m a prev prev_free [] = HasWord m a 0 false prev_free × (m (prev_phys_size a) ≡ prev)
Phys m a prev prev_free (p ∷ ps) =
    HasWord m a p.bytes p.free prev_free
    × (m (prev_phys_size a) ≡ prev)
    × Phys m (after a p) p.bytes p.free ps
