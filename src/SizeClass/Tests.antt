-- ===== src/SizeClass/Tests.antt =====
-- The tests of src/size_class.rs, and the theorems at concrete sizes.
use ferrum_alloc.Base.{ℕ, ◌≤◌, ◌<◌, ◌≡◌, refl, ◌⊎◌, none, some}
use ferrum_alloc.SizeClass.{size_to_class}
use ferrum_alloc.SizeClass.Bounds.{size_to_class-IsTightest, IsTightest}

round_up :
    (size_to_class 1 ≡ some 0)
    × (size_to_class 9 ≡ some 1)
    × (size_to_class 17 ≡ some 2)
    × (size_to_class 65 ≡ some 6)
unfolding size_to_class
round_up = (refl, refl, refl, refl)

size_to_class-IsTightest_example :
    ((100 ≤ 1024) × (c : ℕ) × (size_to_class 100 ≡ some c) × IsTightest 100 c)
    ⊎ (1024 < 100) × (size_to_class 100 ≡ none)
size_to_class-IsTightest_example = size_to_class-IsTightest 100
