-- ===== src/SizeClass/Bounds.antt =====
-- What the lookup of src/size_class.rs returns: the tightest class, for every size.
use ferrum_alloc.Base.{
  ℕ, ◌+◌, ◌-◌, ◌*◌, ◌%◌, ◌≤◌, ◌<◌, ◌≡◌, refl, ◌⊎◌, inl, inr, dec_lt, Bool, true, ◌&&◌, ◌||◌, none,
  some, arith, ltb, leb, ◌==◌, if◌then◌else◌, all_below, all_below_sound,
}
use ferrum_alloc.SizeClass.{
  slab_max_size, num_size_classes, size_class_lut, size_to_class, class_to_size, slots_per_page,
}

-- The class `c` is the smallest whose slots hold `size` bytes.
pub record IsTightest (size c : ℕ) : Type 0 where
  pub in_table : c < num_size_classes
  pub fits : size ≤ class_to_size c
  pub least : (d : ℕ) → d < c → class_to_size d < size

abbrev pub tight : ℕ → Bool
tight size =
    let c = size_class_lut size in
    ltb c num_size_classes
    && leb size (class_to_size c)
    && all_below c (λ d. ltb (class_to_size d) size)

tight_table : all_below 1025 tight ≡ true
unfolding size_to_class class_to_size all_below
tight_table = refl

size_class_lut-IsTightest : (size : ℕ) → size ≤ 1024 → IsTightest size (size_class_lut size)
size_class_lut-IsTightest size h =
    let t : tight size ≡ true = all_below_sound 1025 tight size tight_table (omega arith) in
    record {
      in_table = ground arith;
      fits = ground arith;
      least = λ d lt.
          ground (arith, all_below_sound (size_class_lut size) (λ d. ltb (class_to_size d) size) d);
    }

-- A size up to `slab_max_size` gets the tightest class, and every other size gets none.
pub size_to_class-IsTightest :
    (size : ℕ)
    → ((size ≤ slab_max_size) × (c : ℕ) × (size_to_class size ≡ some c) × IsTightest size c)
      ⊎ (slab_max_size < size) × (size_to_class size ≡ none)
unfolding size_to_class
size_to_class-IsTightest size = elim (dec_lt 1024 size) [
  | yes h ↦ inr (h, ground arith)
  | no h ↦
      inl (
        omega arith,
        size_class_lut size,
        ground arith,
        size_class_lut-IsTightest size (omega arith),
      )
]

abbrev round : ℕ → Bool
round c = size_class_lut (class_to_size c) == c && leb (class_to_size c) slab_max_size

round_table : all_below 22 round ≡ true
unfolding size_to_class class_to_size all_below
round_table = refl

-- A class's own slot size is looked up as that class.
pub size_to_class-class_to_size :
    (c : ℕ) → c < num_size_classes → size_to_class (class_to_size c) ≡ some c
unfolding size_to_class
size_to_class-class_to_size c h = ground (arith, all_below_sound 22 round c round_table)

abbrev snug : ℕ → Bool
snug size =
    let slot = class_to_size (size_class_lut size) in leb size 8 || ltb (2 * (slot - size)) slot

snug_table : all_below 1025 snug ≡ true
unfolding size_to_class class_to_size all_below
snug_table = refl

-- For a size above 8 bytes that has a class, the slot holds the size and less than half of it is
-- wasted.
pub size_to_class-waste :
    (size : ℕ) {c : ℕ}
    → 8 < size
    → size_to_class size ≡ some c
    → (size ≤ class_to_size c) × (2 * (class_to_size c - size) < class_to_size c)
unfolding size_to_class
size_to_class-waste size h e =
    ground (arith, all_below_sound 1025 snug size snug_table, size_class_lut-IsTightest size)

abbrev filled : ℕ → Bool
filled c =
    let slot = class_to_size c in
    let slots = slots_per_page c 4096 in
    leb 4 slots && leb slots 512 && leb (slots * slot) 4096 && ltb 4096 ((slots + 1) * slot)

filled_table : all_below 22 filled ≡ true
unfolding slots_per_page all_below
filled_table = refl

-- The slots of each class fill a page: 4 to 512 of them, none past its end, and no room for
-- another.
pub slots_per_page-fill :
    (c : ℕ)
    → c < num_size_classes
    → (4 ≤ slots_per_page c 4096)
      × (slots_per_page c 4096 ≤ 512)
      × (slots_per_page c 4096 * class_to_size c ≤ 4096)
      × (4096 < (slots_per_page c 4096 + 1) * class_to_size c)
slots_per_page-fill c h = ground (arith, all_below_sound 22 filled c filled_table)

abbrev aligned : ℕ → Bool
aligned c = class_to_size c % 16 == (if c == 0 || c == 2 then 8 else 0)

aligned_table : all_below 22 aligned ≡ true
unfolding class_to_size all_below
aligned_table = refl

-- Slots are multiples of 16 bytes, but for those of 8 and of 24 bytes, which are 8 more than one.
pub class_to_size-align :
    (c : ℕ) → c < num_size_classes → class_to_size c % 16 ≡ (if c == 0 || c == 2 then 8 else 0)
class_to_size-align c h = ground (arith, all_below_sound 22 aligned c aligned_table)
