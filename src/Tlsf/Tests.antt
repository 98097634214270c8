-- ===== src/Tlsf/Tests.antt =====
-- Runs of src/tlsf.rs on a small pool, and the theorems at its states.
use ferrum_alloc.Base.{◌+◌, ◌≡◌, refl, ◌⊎◌, [], ◌∷◌, arith, ◌==◌, if◌then◌else◌}
use ferrum_alloc.Base.Word.{leading_zeros, trailing_zeros}
use ferrum_alloc.Memory.{Mem, update}
use ferrum_alloc.Tlsf.Mapping.{fl_count, mapping, mapping_search, align_up_size}
use ferrum_alloc.Tlsf.Block.{
  size, set_size, is_free, prev_is_free, set_free, mark_used, mark_prev_free, mark_prev_used,
}
use ferrum_alloc.Tlsf.Allocator.{
  Tlsf, new, link, insert_free, clear_bits, remove_free, find_bin, find_suitable, write_header,
  clear_links, split, prepare_used, alloc, merge_next, merge_prev, free, add_pool, usable_size,
}
use ferrum_alloc.Tlsf.Allocator.Bitmaps.{BitmapsAgree, new-BitmapsAgree, insert_free-BitmapsAgree}
use ferrum_alloc.Tlsf.Allocator.Find.{IsBestFit, NoFit, find_bin-best}
use ferrum_alloc.Tlsf.Allocator.Links.{Bins, set_bin, IsLinked, insert_free-IsLinked}

-- A pool of 64 KB at 4096, then two blocks and their frees.
abbrev pool : Tlsf
pool = add_pool (new (λ _. 0)) 4096 65536

run_first : (alloc pool 1000).0 ≡ 4112
unfolding add_pool alloc find_suitable find_bin prepare_used split insert_free remove_free
    clear_bits link write_header clear_links size set_size is_free mark_used mark_prev_free
    mark_prev_used mapping mapping_search align_up_size leading_zeros trailing_zeros update
run_first = refl

run_reuse :
    let (p, t1) = alloc pool 2048 in
    let (q, t2) = alloc t1 1024 in
    let t3 = free (free t2 q) p in
    (p ≡ 4112)
    × (q ≡ 4112 + 2048 + 16)
    × ((alloc t3 60000).0 ≡ 4112)
    × (usable_size t2.mem q ≡ 1024)
unfolding add_pool alloc find_suitable find_bin prepare_used split insert_free remove_free
    clear_bits link write_header clear_links size set_size is_free prev_is_free set_free mark_used
    mark_prev_free mark_prev_used mapping mapping_search align_up_size leading_zeros trailing_zeros
    update free merge_next merge_prev usable_size
run_reuse = (refl, refl, refl, refl)

-- A free block of 1024 bytes at 64, and the allocator before and after it is listed.
abbrev one_block : Mem
one_block a = if a == 72 then 1025 else 0

abbrev unlisted : Tlsf
unlisted = new one_block

abbrev listed : Tlsf
listed = insert_free unlisted 64

abbrev no_bins : Bins
no_bins f l = []

abbrev one_bin : Bins
one_bin = set_bin no_bins 6 0 (64 ∷ [])

size_one : mapping (size one_block 64) ≡ (6, 0)
unfolding mapping size leading_zeros
size_one = refl

listed-BitmapsAgree : BitmapsAgree listed
unfolding mapping size leading_zeros
listed-BitmapsAgree =
    insert_free-BitmapsAgree unlisted 64 (omega arith) (omega arith) (omega arith)
      (new-BitmapsAgree one_block)

find_bin-best_example :
    (IsBestFit listed 1000 (find_bin listed 1000).0 (find_bin listed 1000).1)
    ⊎ (((find_bin listed 1000).0 ≡ fl_count) × NoFit listed 1000)
find_bin-best_example = find_bin-best listed 1000 (omega arith) (omega arith) listed-BitmapsAgree

unlisted-IsLinked : IsLinked unlisted no_bins
unlisted-IsLinked = record { chain = λ f l. refl; unique = λ x f l g m i j. cc }

listed-IsLinked : IsLinked listed one_bin
unfolding mapping size leading_zeros
listed-IsLinked =
    insert_free-IsLinked unlisted no_bins 64 (omega arith) refl (λ f l. refl) unlisted-IsLinked
