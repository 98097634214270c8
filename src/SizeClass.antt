-- ===== src/SizeClass.antt =====
-- src/size_class.rs: the slot sizes of the slab allocator and the lookup of a size's class.
-- A lookup past the end of `size_classes` is a panic in the source; `Bounds` shows that the
-- classes that the lookup table holds are inside.
pub mod Bounds
mod Tests
use ferrum_alloc.Base.{
  ℕ, zero, suc, ◌+◌, ◌/◌, Option, none, some, List, [], ◌∷◌, ltb, leb, ◌==◌, if◌then◌else◌, get_or,
}

abbrev pub slab_max_size : ℕ
slab_max_size = 1024

abbrev pub size_classes : List ℕ
size_classes =
    8 ∷ 16 ∷ 24 ∷ 32 ∷ 48 ∷ 64 ∷ 80 ∷ 96 ∷ 112 ∷ 128 ∷ 160 ∷ 192 ∷ 224 ∷ 256 ∷ 320 ∷ 384 ∷ 448 ∷ 512
    ∷ 640 ∷ 768 ∷ 896 ∷ 1024 ∷ []

abbrev pub num_size_classes : ℕ
num_size_classes = 22

-- The inner loop of the table's initialiser, with the rounds that are left.
pub first_class : ℕ → (class_idx size : ℕ) → ℕ
first_class zero class_idx size = class_idx
first_class (suc rounds) class_idx size =
    let next = first_class rounds (class_idx + 1) size in
    if leb size (get_or size_classes class_idx 0) then class_idx else next

-- The entry of `SIZE_CLASS_LUT` at `size`.
pub size_class_lut : ℕ → ℕ
unfolding first_class
size_class_lut size = first_class num_size_classes 0 size

unfoldable pub size_to_class : ℕ → Option ℕ
unfolding size_class_lut
size_to_class size = if ltb slab_max_size size then none else some (size_class_lut size)

unfoldable pub class_to_size : ℕ → ℕ
class_to_size class = get_or size_classes class 0

unfoldable pub slots_per_page : (class page_size : ℕ) → ℕ
unfolding class_to_size
slots_per_page class page_size =
    let slot_size = class_to_size class in if slot_size == 0 then 0 else page_size / slot_size
