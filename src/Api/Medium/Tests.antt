-- ===== src/Api/Medium/Tests.antt =====
-- A program that asks src/api.rs for two blocks, on a system that maps the arena at 8 MB.
use ferrum_alloc.Base.{ℕ, ◌+◌, ◌≤◌, ◌%◌, subst, ◌≡◌, ◌≢◌, refl, true, some, [], ◌∷◌, arith}
use ferrum_alloc.Base.Word.{leading_zeros, trailing_zeros}
use ferrum_alloc.Memory.{Ptr, null, update}
use ferrum_alloc.Platform.{Os, page_size, os_alloc}
use ferrum_alloc.Arena.{Arena, init_metas, mark_large, page_addr}
use ferrum_alloc.Tlsf.Mapping.{mapping, mapping_search, align_up_size}
use ferrum_alloc.Tlsf.Block.{size, set_size, is_free, mark_used, mark_prev_free, mark_prev_used}
use ferrum_alloc.Tlsf.Allocator
use ferrum_alloc.Tlsf.Allocator.{
  Tlsf, link, insert_free, clear_bits, remove_free, find_bin, find_suitable, write_header,
  clear_links, split, prepare_used, add_pool,
}
use ferrum_alloc.Api.Global.{Global, tlsf_pool_size, put_tlsf, ensure_init}
use ferrum_alloc.Api.Malloc.{ferrum_malloc}
use ferrum_alloc.Api.Free.{in_tlsf, ferrum_free, ferrum_usable_size}
use ferrum_alloc.Api.Routes.{untouched}
use ferrum_alloc.Api.Tests.{system, globals}
use ferrum_alloc.Api.Medium.Start.{
  mapped, first_arena, first_tlsf, first_state, first_global, ensure_init-HasPool,
}
use ferrum_alloc.Api.Medium.Served.{ferrum_malloc-ferrum_free}
use ferrum_alloc.Api.Medium.Calls.{IsReached, started, given, IsReady}
use ferrum_alloc.Api.Medium.Reached.{
  IsBlock, word_after_malloc, word_after_free, reached-IsReady, reached-apart, reached-kept_malloc,
  reached-kept_free, reached-served_again,
}
use ferrum_alloc.Api.Medium.{HasPool, ferrum_malloc-tlsf}
use ferrum_alloc.Arena.Pages.{IsArena}
use ferrum_alloc.Tlsf.Pool.{free_part}
use ferrum_alloc.Tlsf.Pool.Start.{pool_payload}
use ferrum_alloc.ThreadCache.{get_or_create}

abbrev pub os : Os
os = system 8388608

abbrev pub first : Tlsf
first = first_tlsf os 0 globals

at_first : (Allocator.alloc first 2000).0 ≡ 8388608 + 20480 + 16
unfolding init_metas mark_large page_addr os_alloc add_pool Allocator.alloc find_suitable find_bin
    prepare_used split insert_free remove_free clear_bits link write_header clear_links size
    set_size is_free mark_used mark_prev_free mark_prev_used mapping mapping_search align_up_size
    leading_zeros trailing_zeros update
at_first = refl

abbrev one : Tlsf
one = (Allocator.alloc first 2000).1

at_second : (Allocator.alloc one 3000).0 ≡ 8388608 + 20480 + 16 + 2000 + 16
unfolding init_metas mark_large page_addr os_alloc add_pool Allocator.alloc find_suitable find_bin
    prepare_used split insert_free remove_free clear_bits link write_header clear_links size
    set_size is_free mark_used mark_prev_free mark_prev_used mapping mapping_search align_up_size
    leading_zeros trailing_zeros update
at_second = refl

abbrev two : Tlsf
two = (Allocator.alloc one 3000).1

abbrev pub arena : Arena
arena = first_arena os 0 globals

-- The states after the first call, after one request and after two.
abbrev pub state : os.State
state = (first_state os 0 globals).0

abbrev pub ready : Global
ready = first_global os 0 globals

abbrev ready_one : Global
ready_one = put_tlsf ready one

abbrev ready_two : Global
ready_two = put_tlsf ready two

abbrev held_one : Ptr → ℕ
held_one = update (λ _. 0) (8388608 + 20480 + 16) 2000

abbrev held_two : Ptr → ℕ
held_two = update held_one (8388608 + 20480 + 16 + 2000 + 16) 3000

map_real : mapped os 0 globals ≢ null
unfolding os_alloc
map_real e = omega arith

map_paged : mapped os 0 globals % page_size ≡ 0
unfolding os_alloc
map_paged = refl

ready-HasPool :
    (ensure_init os 0 (untouched globals) ≡ (state, ready))
    × IsArena arena
    × HasPool ready.heap arena first (free_part (pool_payload tlsf_pool_size) ∷ [])
ready-HasPool = ensure_init-HasPool os 0 globals map_real map_paged

pub from_start : IsReached os 1 state ready (λ _. 0)
from_start =
    subst (λ (r : os.State × Global). IsReached os 1 r.0 r.1 (λ _. 0)) ready-HasPool.0
      (started 0 globals map_real map_paged)

real_one : (Allocator.alloc first 2000).0 ≢ null
real_one e = omega (arith, at_first)

real_two : (Allocator.alloc one 3000).0 ≢ null
real_two e = omega (arith, at_second)

with_one : IsReached os 1 state ready_one held_one
with_one = rw at_first at (
    given 2000 (Allocator.alloc first 2000).0 state ready_one (omega arith) (omega arith)
      (ferrum_malloc-tlsf os 1 state ready arena first 2000 (omega arith) (omega arith) real_one)
      real_one from_start)

with_two : IsReached os 1 state ready_two held_two
with_two = rw at_second at (
    given 3000 (Allocator.alloc one 3000).0 state ready_two (omega arith) (omega arith)
      (ferrum_malloc-tlsf os 1 state ready_one arena one 3000 (omega arith) (omega arith) real_two)
      real_two with_one)

-- The theorems there.
ensure_init-HasPool_example :
    (ensure_init os 0 (untouched globals) ≡ (state, ready))
    × IsArena arena
    × HasPool ready.heap arena first (free_part (pool_payload tlsf_pool_size) ∷ [])
ensure_init-HasPool_example = ensure_init-HasPool os 0 globals map_real map_paged

reached-apart_example :
    8388608 + 20480 + 16 + held_two (8388608 + 20480 + 16) ≤ 8388608 + 20480 + 16 + 2000 + 16
unfolding update
reached-apart_example =
    reached-apart os 1 state ready_two held_two with_two (8388608 + 20480 + 16)
      (8388608 + 20480 + 16 + 2000 + 16) (λ e. omega arith) (λ e. omega arith) (omega arith)

reached-IsReady_example : IsReady ready_two held_two
reached-IsReady_example = reached-IsReady os 1 state ready_two held_two with_two

reached-served_again_example : IsBlock os (ferrum_malloc os 1 state ready 200000)
reached-served_again_example =
    reached-served_again os 1 state ready (λ _. 0) from_start 200000 (omega arith) (omega arith)
      (λ p. refl)

ferrum_malloc-ferrum_free_example :
    let (p, t1) = Allocator.alloc first 2000 in
    let g1 = put_tlsf ready t1 in
    let usable = Allocator.usable_size t1.mem p in
    let (found, s1, ts) = get_or_create os state ready.threads in
    let t2 = Allocator.free t1 p in
    let g2 = put_tlsf (record g1 { threads = ts }) t2 in
    (ferrum_malloc os 1 state ready 2000 ≡ some (p, state, g1))
    × (ferrum_usable_size os state g1 p ≡ some (usable, state, g1))
    × (2000 ≤ usable)
    × (ferrum_free os state g1 p ≡ some (s1, g2))
    × HasPool g2.heap arena t2 (free_part (pool_payload tlsf_pool_size) ∷ [])
ferrum_malloc-ferrum_free_example =
    ferrum_malloc-ferrum_free os 1 state ready arena first
      (free_part (pool_payload tlsf_pool_size) ∷ []) ready-HasPool.2 2000 (omega arith)
      (omega arith) real_one

in_tlsf_one : in_tlsf ready_two (8388608 + 20480 + 16) ≡ true
unfolding in_tlsf Allocator.contains init_metas mark_large page_addr os_alloc add_pool
    Allocator.alloc find_suitable find_bin prepare_used split insert_free remove_free clear_bits
    link write_header clear_links size set_size is_free mark_used mark_prev_free mark_prev_used
    mapping mapping_search align_up_size leading_zeros trailing_zeros update
in_tlsf_one = refl

reached-kept_malloc_example :
    word_after_malloc os (ferrum_malloc os 1 state ready_two 5000) (8388608 + 20480 + 24)
    ≡ some (ready_two.heap.mem (8388608 + 20480 + 24))
unfolding update
reached-kept_malloc_example =
    reached-kept_malloc os 1 state ready_two held_two with_two (8388608 + 20480 + 16)
      (8388608 + 20480 + 24) 5000 in_tlsf_one (λ e. omega arith) (omega arith) (omega arith)
      (omega arith) (omega arith)

reached-kept_free_example :
    word_after_free os
      (ferrum_free os state ready_two (8388608 + 20480 + 16 + 2000 + 16))
      (8388608 + 20480 + 24)
    ≡ some (ready_two.heap.mem (8388608 + 20480 + 24))
unfolding update
reached-kept_free_example =
    reached-kept_free os 1 state ready_two held_two with_two (8388608 + 20480 + 16)
      (8388608 + 20480 + 24) (8388608 + 20480 + 16 + 2000 + 16) in_tlsf_one (λ e. omega arith)
      (omega arith) (omega arith) (λ e. omega arith) (λ e. omega arith)
