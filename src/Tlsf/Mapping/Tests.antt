-- ===== src/Tlsf/Mapping/Tests.antt =====
-- The mapping tests of src/tlsf.rs, and the theorems at concrete sizes.
use ferrum_alloc.Base.{◌≡◌, refl, ◌↔◌, arith}
use ferrum_alloc.Base.Word.{leading_zeros}
use ferrum_alloc.Tlsf.Mapping.{mapping, mapping_search, align_up_size}
use ferrum_alloc.Tlsf.Mapping.Bins.{InBin, mapping-InBin}
use ferrum_alloc.Tlsf.Mapping.Search.{IsFirstFit, mapping_search-IsFirstFit}

mapping_sizes :
    (mapping 1024 ≡ (6, 0))
    × (mapping 2048 ≡ (7, 0))
    × (mapping 16 ≡ (0, 0))
    × (mapping 1536 ≡ (6, 8))
unfolding mapping leading_zeros
mapping_sizes = (refl, refl, refl, refl)

mapping_search_sizes :
    (mapping_search 1008 ≡ (6, 0))
    × (mapping_search 1024 ≡ (6, 0))
    × (mapping_search 1040 ≡ (6, 1))
    × (mapping_search 5000000 ≡ (18, 0))
unfolding mapping_search leading_zeros
mapping_search_sizes = (refl, refl, refl, refl)

align_up_sizes : (align_up_size 1000 ≡ 1008) × (align_up_size 16 ≡ 16)
unfolding align_up_size
align_up_sizes = (refl, refl)

mapping-InBin_example : (mapping 1536 ≡ (6, 8)) ↔ InBin 6 8 1536
mapping-InBin_example = mapping-InBin 1536 6 8 (omega arith) (omega arith)

mapping_search-IsFirstFit_example : IsFirstFit 1040 (mapping_search 1040).0 (mapping_search 1040).1
unfolding mapping_search leading_zeros
mapping_search-IsFirstFit_example =
    mapping_search-IsFirstFit 1040 (omega arith) (omega arith) (omega arith)
