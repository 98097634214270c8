-- ===== src/Platform/Pages.antt =====
-- `align_up` of src/platform.rs, and where it wraps.
use ferrum_alloc.Base.{ℕ, ◌+◌, ◌*◌, ◌/◌, ◌%◌, ◌^◌, ◌≤◌, ◌<◌, ◌≡◌, ◌⊎◌, bit_and, arith}
use ferrum_alloc.Base.Bits.{bit_and-high}
use ferrum_alloc.Base.Word.{add_size, sub_size, not_size}
use ferrum_alloc.Platform.{align_up, page_size}

-- `x & !(4096 - 1)`
pub page_floor : (x : ℕ) → x < 2 ^ 64 → bit_and x (not_size (sub_size 4096 1)) ≡ x / 4096 * 4096
page_floor x h = bit_and-high 64 12 x (omega arith) h

-- Rounding a size up to pages gives the least multiple of the page size that holds it, unless the
-- sum passes the end of `usize`: then the result is 0.
pub align_up_lem :
    (value : ℕ)
    → value < 2 ^ 64
    → (value + 4095 < 2 ^ 64)
        × (align_up value page_size % 4096 ≡ 0)
        × (value ≤ align_up value page_size)
        × (align_up value page_size < value + 4096)
      ⊎ (2 ^ 64 ≤ value + 4095) × (align_up value page_size ≡ 0)
unfolding align_up
align_up_lem value h =
    rw (page_floor (sub_size (add_size value 4096) 1) (omega arith)) (omega arith)

-- The least multiple, where the sum stays a `usize`.
pub align_up_fits :
    (value : ℕ)
    → value + 4095 < 2 ^ 64
    → (align_up value page_size % 4096 ≡ 0)
      × (value ≤ align_up value page_size)
      × (align_up value page_size < value + 4096)
align_up_fits value h = ground (arith, align_up_lem value)
