-- ===== src/Tlsf/Pool/Tests.antt =====
-- A client of src/tlsf.rs on a pool of 64 KB at 4096, and the theorems at its states.
use ferrum_alloc.Base.{ℕ, ◌+◌, ◌≤◌, ◌≡◌, ◌≢◌, ◌⊎◌, refl, [], ◌∷◌, arith}
use ferrum_alloc.Base.Word.{leading_zeros, trailing_zeros}
use ferrum_alloc.Memory.{Ptr, null, update}
use ferrum_alloc.Tlsf.Mapping.{mapping, mapping_search, align_up_size}
use ferrum_alloc.Tlsf.Block.{
  size, set_size, is_free, mark_used, mark_prev_free, mark_prev_used, payload,
}
use ferrum_alloc.Tlsf.Allocator.{
  Tlsf, new, link, insert_free, clear_bits, remove_free, find_bin, find_suitable, write_header,
  clear_links, split, prepare_used, alloc, free, add_pool, with_mem,
}
use ferrum_alloc.Tlsf.Pool.{used_part, free_part}
use ferrum_alloc.Tlsf.Pool.State.{IsPool, remove_free-IsOpen}
use ferrum_alloc.Tlsf.Pool.Alloc.{IsTaken, adjusted, alloc-IsTaken, alloc-served}
use ferrum_alloc.Tlsf.Pool.Prepare.{prepare_used-IsPool}
use ferrum_alloc.Tlsf.Allocator.Find.{NoFit}
use ferrum_alloc.Tlsf.Pool.Start.{add_pool-IsPool}
use ferrum_alloc.Tlsf.Pool.Free.{free-IsPool}
use ferrum_alloc.Tlsf.Pool.RoundTrip.{alloc-free}
use ferrum_alloc.Tlsf.Pool.Run.{IsRun, start, allocated, freed, written, IsServed, run-IsServed}
use ferrum_alloc.Tlsf.Pool.Client.{held-apart, nothing_held}

abbrev pool : Tlsf
pool = add_pool (new (λ _. 0)) 4096 65536

pool_start : IsPool pool 4096 (free_part 65504 ∷ [])
pool_start = add_pool-IsPool (λ _. 0) 4096 65536 (omega arith) refl (omega arith) (omega arith)

-- Two blocks, a write into the first one, and a free of it.
abbrev one : Tlsf
one = (alloc pool 1000).1

abbrev two : Tlsf
two = (alloc one 2048).1

at_one : (alloc pool 1000).0 ≡ 4112
unfolding add_pool alloc find_suitable find_bin prepare_used split insert_free remove_free
    clear_bits link write_header clear_links size set_size is_free mark_used mark_prev_free
    mark_prev_used mapping mapping_search align_up_size leading_zeros trailing_zeros update
at_one = refl

at_two : (alloc one 2048).0 ≡ 5136
unfolding add_pool alloc find_suitable find_bin prepare_used split insert_free remove_free
    clear_bits link write_header clear_links size set_size is_free mark_used mark_prev_free
    mark_prev_used mapping mapping_search align_up_size leading_zeros trailing_zeros update
at_two = refl

abbrev held_one : Ptr → ℕ
held_one = update (λ _. 0) 4112 1000

abbrev held_two : Ptr → ℕ
held_two = update held_one 5136 2048

served_one : (alloc pool 1000).0 ≢ null
served_one e = omega (arith, at_one)

served_two : (alloc one 2048).0 ≢ null
served_two e = omega (arith, at_two)

run_start : IsRun 4096 65536 pool (λ _. 0)
run_start = start (λ _. 0)

run_one : IsRun 4096 65536 one held_one
run_one = rw at_one at (allocated 1000 (omega arith) (omega arith) served_one (run_start))

run_two : IsRun 4096 65536 two held_two
run_two = rw at_two at (allocated 2048 (omega arith) (omega arith) served_two run_one)

run_written : IsRun 4096 65536 (with_mem two (update two.mem 4120 7)) held_two
unfolding update
run_written = written 4112 4120 7 (omega arith) (omega arith) run_two

run_freed : IsRun 4096 65536 (free one 4112) (update held_one 4112 0)
unfolding update
run_freed = freed 4112 (omega arith) run_one

freed_none : (p : Ptr) → update held_one 4112 0 p ≡ 0
unfolding update
freed_none p = ground arith

run-IsServed_example : IsServed 4096 65536 (with_mem two (update two.mem 4120 7)) held_two
run-IsServed_example =
    run-IsServed 4096 65536 (with_mem two (update two.mem 4120 7)) held_two (omega arith) refl
      (omega arith) (omega arith) run_written

held-apart_example : 4112 + held_two 4112 + 16 ≤ 5136
unfolding update
held-apart_example =
    held-apart 4096 65536 two held_two (omega arith) refl (omega arith) (omega arith) run_two 4112
      5136 (omega arith) (omega arith) (omega arith)

nothing_held_example : IsPool (free one 4112) 4096 (free_part 65504 ∷ [])
nothing_held_example =
    nothing_held 4096 65536 (free one 4112) (update held_one 4112 0) (omega arith) refl
      (omega arith) (omega arith) run_freed freed_none

alloc-IsTaken_example :
    IsTaken pool 4096 (free_part 65504 ∷ []) (adjusted 1000) (alloc pool 1000)
    ⊎ ((alloc pool 1000 ≡ (null, pool)) × NoFit pool (adjusted 1000))
alloc-IsTaken_example =
    alloc-IsTaken pool 4096 (free_part 65504 ∷ []) pool_start 1000 (omega arith) (omega arith)

alloc-served_example : IsTaken pool 4096 (free_part 65504 ∷ []) (adjusted 1000) (alloc pool 1000)
unfolding align_up_size
alloc-served_example =
    alloc-served pool 4096 (free_part 65504 ∷ []) pool_start 1000 4096 (omega arith) (omega arith)
      (omega arith)

alloc-free_example :
    IsPool (free (alloc pool 1000).1 (alloc pool 1000).0) 4096 (free_part 65504 ∷ [])
alloc-free_example =
    alloc-free pool 4096 (free_part 65504 ∷ []) 1000 pool_start (omega arith) (omega arith)
      served_one

-- The pool with its first 1008 bytes in use.
abbrev in_use : Tlsf
in_use = (prepare_used (remove_free pool 4096) 4096 1008).1

in_use-IsPool : IsPool in_use 4096 (used_part 1008 ∷ free_part 64480 ∷ [])
in_use-IsPool =
    (prepare_used-IsPool (remove_free pool 4096) 4096 [] 65504 1008 []
      (remove_free-IsOpen pool 4096 [] 65504 [] pool_start) (omega arith) refl (omega arith)).1

free-IsPool_example : IsPool (free in_use (payload 4096)) 4096 (free_part 65504 ∷ [])
free-IsPool_example = free-IsPool in_use 4096 [] 1008 (free_part 64480 ∷ []) in_use-IsPool
