-- ===== src/Tlsf/Pool/Place.antt =====
-- The operations of src/tlsf.rs leave the bounds of the pool alone.
use ferrum_alloc.Base.{
  max, ◌+◌, ◌*◌, ◌≤◌, ltb, false, ℕ, ◌≡◌, ◌∙◌, Bool-cases, inl, inr, ◌==◌, arith,
}
use ferrum_alloc.Memory.{Ptr, null}
use ferrum_alloc.Tlsf.Mapping.{header_size, fl_count, min_payload, align_up_size}
use ferrum_alloc.Tlsf.Block.{is_free, prev_is_free, set_free, from_payload, next_phys, prev_phys}
use ferrum_alloc.Tlsf.Allocator.{
  Tlsf, with_mem, insert_free, clear_bits, remove_free, find_bin, find_suitable, split,
  prepare_used, alloc, merge_next, merge_prev, free, add_pool,
}

-- Both bounds.
abbrev pub place : Tlsf → Ptr × Ptr
place t = (t.pool_start, t.pool_end)

clear_bits-place : (t : Tlsf) (f l : ℕ) → place (clear_bits t f l) ≡ place t
unfolding clear_bits
clear_bits-place t f l = ground arith

remove_free-place : (t : Tlsf) (b : Ptr) → place (remove_free t b) ≡ place t
unfolding remove_free clear_bits
remove_free-place t b = ground arith

find_suitable-place : (t : Tlsf) (n : ℕ) → place (find_suitable t n).1 ≡ place t
unfolding find_suitable
find_suitable-place t n = elim (Bool-cases ((find_bin t n).0 == fl_count)) [
  | inl missed ↦ rw missed
  | inr found ↦ rw found (remove_free-place t (t.lists (find_bin t n).0 (find_bin t n).1))
]

prepare_used-place : (t : Tlsf) (b n : ℕ) → place (prepare_used t b n).1 ≡ place t
unfolding prepare_used split insert_free
prepare_used-place t b n = ground arith

pub alloc-place : (t : Tlsf) (n : ℕ) → place (alloc t n).1 ≡ place t
unfolding alloc
alloc-place t n =
    let k : ℕ = max (align_up_size n) min_payload in
    let (b, t1) = find_suitable t k in
    elim (Bool-cases (n == 0)) [
      | inl nothing ↦ rw nothing
      | inr some_bytes ↦ elim (Bool-cases (b == null)) [
        | inl missed ↦ rw (some_bytes, missed) (find_suitable-place t k)
        | inr found ↦ rw (some_bytes, found) (prepare_used-place t1 b k ∙ find_suitable-place t k)
      ]
    ]

merge_next-place : (t : Tlsf) (b : Ptr) → place (merge_next t b).1 ≡ place t
unfolding merge_next
merge_next-place t b = elim (Bool-cases (is_free t.mem (next_phys t.mem b))) [
  | inl frees ↦ rw frees (remove_free-place t (next_phys t.mem b))
  | inr uses ↦ rw uses
]

merge_prev-place : (t : Tlsf) (b : Ptr) → place (merge_prev t b).1 ≡ place t
unfolding merge_prev
merge_prev-place t b = elim (Bool-cases (prev_is_free t.mem b)) [
  | inl frees ↦ rw frees (remove_free-place t (prev_phys t.mem b))
  | inr uses ↦ rw uses
]

pub free-place : (t : Tlsf) (p : Ptr) → place (free t p) ≡ place t
unfolding free insert_free
free-place t p =
    let t0 : Tlsf = with_mem t (set_free t.mem (from_payload p)) in
    let (b1, t1) = merge_next t0 (from_payload p) in
    elim (Bool-cases (p == null)) [
      | inl nothing ↦ rw nothing
      | inr block ↦ rw block (merge_prev-place t1 b1 ∙ merge_next-place t0 (from_payload p))
    ]

pub add_pool-place :
    (t : Tlsf) (base pool_size : ℕ)
    → 2 * header_size + min_payload ≤ pool_size
    → place (add_pool t base pool_size) ≡ (base, base + pool_size)
unfolding add_pool insert_free
add_pool-place t base pool_size low =
    let large : ltb pool_size (2 * header_size + min_payload) ≡ false = ground arith in rw large
