-- ===== src/Tlsf/Mapping.antt =====
-- The constants of src/tlsf.rs and its two maps from a payload size to a free list.
-- `saturating_sub` is the subtraction of ℕ. No shift here reaches 64, so none loses a bit.
pub mod Bins
pub mod Search
mod Tests
use ferrum_alloc.Base.{ℕ, ◌+◌, ◌-◌, ◌*◌, ◌/◌, ◌%◌, ◌^◌, min, bit_and, bit_xor, ltb, if◌then◌else◌}
use ferrum_alloc.Base.Word.{add_size, sub_size, not_size, shr, leading_zeros}

-- `ALIGN`, `HEADER_SIZE`, `MIN_PAYLOAD`
abbrev pub align : ℕ
align = 16

abbrev pub header_size : ℕ
header_size = 16

abbrev pub min_payload : ℕ
min_payload = 2 * 8

abbrev pub fl_shift : ℕ
fl_shift = 4

abbrev pub fl_max : ℕ
fl_max = 21

abbrev pub fl_count : ℕ
fl_count = fl_max - fl_shift + 1

abbrev pub sl_count : ℕ
sl_count = 16

abbrev pub sl_log2 : ℕ
sl_log2 = 4

-- `usize::BITS - 1 - size.leading_zeros()`
abbrev pub log2 : ℕ → ℕ
log2 size = 64 - 1 - leading_zeros 64 size

unfoldable pub mapping : ℕ → ℕ × ℕ
mapping size =
    let fl = log2 size in
    let sl = bit_xor (shr size (fl - sl_log2)) sl_count in (sub_size fl fl_shift, sl)

unfoldable pub mapping_search : ℕ → ℕ × ℕ
mapping_search size =
    let fl = log2 size in
    let round = 2 ^ (fl - sl_log2) - 1 in
    let size2 = min (size + round) (2 ^ 64 - 1) in
    let fl2 = log2 size2 in
    if ltb fl_max fl2
    then (fl_count, 0)
    else (let sl = bit_xor (shr size2 (fl2 - sl_log2)) sl_count in (sub_size fl2 fl_shift, sl))

unfoldable pub align_up_size : ℕ → ℕ
align_up_size size = bit_and (sub_size (add_size size align) 1) (not_size (align - 1))
