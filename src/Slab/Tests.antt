-- ===== src/Slab/Tests.antt =====
-- A client of src/slab.rs that asks a new arena for two slots of 1024 bytes.
use ferrum_alloc.Base.{ℕ, ◌+◌, ◌≤◌, ◌≡◌, ◌≢◌, refl, arith}
use ferrum_alloc.Memory.{Ptr, null, update, read_u16, write_u16}
use ferrum_alloc.Page.{Heap, empty}
use ferrum_alloc.SizeClass.{class_to_size, slots_per_page}
use ferrum_alloc.Arena.{
  Arena, fresh, alloc_page, meta_ptr, meta_index, page_addr, ptr_to_page_index, data_start_offset,
}
use ferrum_alloc.Arena.Pages.{IsArena}
use ferrum_alloc.Slab
use ferrum_alloc.Slab.{
  Slab, alloc, alloc_from, alloc_no_arena, pop_slot, retire_if_full, init_page, init_slots,
  push_partial_page, free, free_no_arena,
}
use ferrum_alloc.Slab.Serve.{IsHeld}
use ferrum_alloc.Slab.Run.{
  IsRun, start, allocated, freed, run-IsHeld, run-apart, run-inside, run-kept_alloc, run-kept_free,
  run-nothing_held,
}

abbrev arena : Arena
arena = fresh 1048576 1

abbrev heap : Heap
heap = record { mem = λ _. 0; metas = λ _. empty }

arena-IsArena : IsArena arena
arena-IsArena = record { sized = refl; above = omega arith; below = omega arith }

abbrev one : Ptr × Slab × Heap × Arena
one = alloc Slab.new heap arena 21 0

at_one : one.0 ≡ 1069056
unfolding alloc alloc_page alloc_from pop_slot retire_if_full init_page init_slots push_partial_page
    meta_ptr meta_index page_addr slots_per_page update
at_one = refl

abbrev two : Ptr × Slab × Heap × Arena
two = alloc one.1 one.2 one.3 21 0

at_two : two.0 ≡ 1070080
unfolding alloc alloc_page alloc_from pop_slot retire_if_full init_page init_slots push_partial_page
    meta_ptr meta_index page_addr slots_per_page update read_u16 write_u16
at_two = refl

abbrev held_one : Ptr → ℕ
held_one = update (λ _. 0) 1069056 1024

abbrev held_two : Ptr → ℕ
held_two = update held_one 1070080 1024

run_one : IsRun 5 one.3 one.1 one.2 held_one
unfolding class_to_size
run_one = rw at_one at (
    allocated {a = arena} {s = Slab.new} {h = heap} {held = λ _. 0} 21 0 (omega arith)
      (λ e. omega (arith, at_one)) (start arena heap arena-IsArena refl))

run_two : IsRun 5 two.3 two.1 two.2 held_two
unfolding class_to_size
run_two = rw at_two at (
    allocated {a = one.3} {s = one.1} {h = one.2} {held = held_one} 21 0 (omega arith)
      (λ e. omega (arith, at_two)) run_one)

-- The first slot has been given back.
abbrev back : Slab × Heap
back = free one.1 one.2 one.3 1069056

run_back : IsRun 5 one.3 back.0 back.1 (update held_one 1069056 0)
unfolding update
run_back = freed 1069056 (λ e. omega arith) run_one

-- The theorems there.
run-IsHeld_example : IsArena two.3 × IsHeld 5 two.3 two.1 two.2 held_two
run-IsHeld_example = run-IsHeld 5 two.3 two.1 two.2 held_two run_two

run-nothing_held_example :
    ((back.1.metas (meta_ptr one.3 5)).used_slots ≡ 0)
    × (back.0.partial_pages (back.1.metas (meta_ptr one.3 5)).size_class ≢ null)
unfolding alloc alloc_page update
run-nothing_held_example =
    run-nothing_held 5 one.3 back.0 back.1 (update held_one 1069056 0) run_back 5 (omega arith)
      (omega arith) (λ p. ground arith)

run-apart_example : 1069056 + held_two 1069056 ≤ 1070080
unfolding update
run-apart_example =
    run-apart 5 two.3 two.1 two.2 held_two run_two 1069056 1070080 (λ e. omega arith)
      (λ e. omega arith) (omega arith)

run-inside_example :
    (two.3.base + data_start_offset ≤ 1069056)
    × (1069056 + held_two 1069056 ≤ page_addr two.3 two.3.next_free_page)
    × (free two.1 two.2 two.3 1069056
        ≡ free_no_arena two.1 two.2 1069056 (meta_ptr two.3 (ptr_to_page_index two.3 1069056)))
unfolding update
run-inside_example = run-inside 5 two.3 two.1 two.2 held_two run_two 1069056 (λ e. omega arith)

run-kept_alloc_example : (alloc two.1 two.2 two.3 3 0).2.mem 1069064 ≡ two.2.mem 1069064
unfolding update
run-kept_alloc_example =
    run-kept_alloc 5 two.3 two.1 two.2 held_two run_two 1069056 1069064 3 0 (λ e. omega arith)
      (omega arith) (omega arith) (omega arith)

run-kept_free_example : (free two.1 two.2 two.3 1070080).1.mem 1069064 ≡ two.2.mem 1069064
unfolding update
run-kept_free_example =
    run-kept_free 5 two.3 two.1 two.2 held_two run_two 1069056 1069064 1070080 (λ e. omega arith)
      (omega arith) (omega arith) (λ e. omega arith) (λ e. omega arith)
