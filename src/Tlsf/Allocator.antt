-- ===== src/Tlsf/Allocator.antt =====
-- `TlsfAllocator` of src/tlsf.rs with the memory that it works on. The arrays are functions; the
-- bins that the code computes are inside the table (`Tlsf.Mapping.Bins.mapping-lt`). The
-- `debug_assert!`s are absent from a release build and are not modelled.
pub mod Bitmaps
pub mod Find
pub mod Chain
pub mod Unlink
pub mod Links
pub mod Listed
use ferrum_alloc.Base.{
  ℕ, ◌+◌, ◌-◌, ◌*◌, ◌^◌, Bool, not, max, bit_and, bit_or, ◌&&◌, ltb, leb, ◌==◌, if◌then◌else◌,
}
use ferrum_alloc.Base.Word.{add_size, sub_size, not_size, not_u32, shl_u32, trailing_zeros}
use ferrum_alloc.Memory.{Ptr, null, Mem, update}
use ferrum_alloc.Tlsf.Mapping.{
  align, header_size, min_payload, fl_count, mapping, mapping_search, align_up_size,
}
use ferrum_alloc.Tlsf.Block.{
  f_free, f_prev_free, prev_phys_size, size_and_flags, payload, link_prev, link_next, from_payload,
  size, set_size, is_free, prev_is_free, set_free, mark_used, mark_prev_free, mark_prev_used,
  next_phys, prev_phys,
}

pub record Tlsf : Type 0 where
  pub fl_bitmap : ℕ
  pub sl_bitmaps : ℕ → ℕ
  pub lists : ℕ → ℕ → Ptr
  pub pool_start : Ptr
  pub pool_end : Ptr
  pub mem : Mem

-- `TlsfAllocator::new` beside the memory `m`.
abbrev pub new : Mem → Tlsf
new m = record {
  fl_bitmap = 0;
  sl_bitmaps = λ _. 0;
  lists = λ _ _. null;
  pool_start = null;
  pool_end = null;
  mem = m;
}

abbrev pub with_mem : Tlsf → Mem → Tlsf
with_mem t m = record t { mem = m }

unfoldable pub contains : Tlsf → Ptr → Bool
contains t p = leb t.pool_start p && ltb p t.pool_end

-- `self.lists[fl][sl] = p`
abbrev pub set_list : Tlsf → ℕ → ℕ → Ptr → Tlsf
set_list t fl sl p = record t { lists = update t.lists fl (update (t.lists fl) sl p) }

unfoldable pub link : Mem → (block head : Ptr) → Mem
link m block head =
    let m1 = update m (link_prev block) null in
    let m2 = update m1 (link_next block) head in
    if head == null then m2 else update m2 (link_prev head) block

unfoldable pub insert_free : Tlsf → Ptr → Tlsf
insert_free t block =
    let (fl, sl) = mapping (size t.mem block) in
    record t {
      mem = link t.mem block (t.lists fl sl);
      lists = update t.lists fl (update (t.lists fl) sl block);
      fl_bitmap = bit_or t.fl_bitmap (shl_u32 1 fl);
      sl_bitmaps = update t.sl_bitmaps fl (bit_or (t.sl_bitmaps fl) (shl_u32 1 sl));
    }

-- The last lines of `remove_free`: the bits of a list that has become empty.
unfoldable pub clear_bits : Tlsf → (fl sl : ℕ) → Tlsf
clear_bits t fl sl =
    let sl_map = bit_and (t.sl_bitmaps fl) (not_u32 (shl_u32 1 sl)) in
    if t.lists fl sl == null
    then record t {
      sl_bitmaps = update t.sl_bitmaps fl sl_map;
      fl_bitmap = if sl_map == 0 then bit_and t.fl_bitmap (not_u32 (shl_u32 1 fl)) else t.fl_bitmap;
    }
    else t

unfoldable pub remove_free : Tlsf → Ptr → Tlsf
remove_free t block =
    let (fl, sl) = mapping (size t.mem block) in
    let prev = t.mem (link_prev block) in
    let next = t.mem (link_next block) in
    let t1 =
      if prev == null
      then set_list t fl sl next
      else with_mem t (update t.mem (link_next prev) next) in
    let t2 = if next == null then t1 else with_mem t1 (update t1.mem (link_prev next) prev) in
    clear_bits t2 fl sl

-- The bin that `find_suitable` takes its block from; `fl_count` stands for a failed search.
unfoldable pub find_bin : Tlsf → ℕ → ℕ × ℕ
find_bin t n =
    let (fl, sl) = mapping_search n in
    let sl_map = bit_and (t.sl_bitmaps fl) (shl_u32 (2 ^ 32 - 1) sl) in
    let fl_map = bit_and t.fl_bitmap (shl_u32 (2 ^ 32 - 1) (fl + 1)) in
    let up = trailing_zeros 32 fl_map in
    if leb fl_count fl
    then (fl_count, 0)
    else if not (sl_map == 0)
    then (fl, trailing_zeros 32 sl_map)
    else if fl_map == 0
    then (fl_count, 0)
    else (up, trailing_zeros 32 (t.sl_bitmaps up))

unfoldable pub find_suitable : Tlsf → ℕ → Ptr × Tlsf
find_suitable t n =
    let (fl, sl) = find_bin t n in
    let block = t.lists fl sl in if fl == fl_count then (null, t) else (block, remove_free t block)

-- The header that `ptr::write` puts at `block`.
unfoldable pub write_header : Mem → (block : Ptr) (size_flags prev_size : ℕ) → Mem
write_header m block size_flags prev_size =
    update (update m (prev_phys_size block) prev_size) (size_and_flags block) size_flags

unfoldable pub clear_links : Mem → Ptr → Mem
clear_links m block = update (update m (link_prev block) null) (link_next block) null

-- `block` is cut down to `n` bytes and the rest becomes a free block.
unfoldable pub split : Tlsf → Ptr → (n remaining : ℕ) → Tlsf
split t block n remaining =
    let m1 = set_size t.mem block n in
    let rest = next_phys m1 block in
    let rest_payload = sub_size remaining header_size in
    let m2 = clear_links (write_header m1 rest (bit_or rest_payload f_free) n) rest in
    let after = next_phys m2 rest in
    let m3 = update m2 (prev_phys_size after) rest_payload in
    insert_free (with_mem t (mark_prev_free m3 after)) rest

unfoldable pub prepare_used : Tlsf → Ptr → ℕ → Ptr × Tlsf
prepare_used t block n =
    let remaining = sub_size (size t.mem block) n in
    let t1 = if leb (header_size + min_payload) remaining then split t block n remaining else t in
    let m = mark_used t1.mem block in
    (payload block, with_mem t1 (mark_prev_used m (next_phys m block)))

unfoldable pub alloc : Tlsf → ℕ → Ptr × Tlsf
alloc t n =
    let adjusted = max (align_up_size n) min_payload in
    let (block, t1) = find_suitable t adjusted in
    if n == 0
    then (null, t)
    else if block == null
    then (null, t1)
    else prepare_used t1 block adjusted

unfoldable pub merge_next : Tlsf → Ptr → Ptr × Tlsf
merge_next t block =
    let next = next_phys t.mem block in
    let t1 = remove_free t next in
    let new_size = add_size (add_size (size t1.mem block) header_size) (size t1.mem next) in
    let m = set_size t1.mem block new_size in
    let after = next_phys m block in
    if is_free t.mem next
    then (block, with_mem t1 (update m (prev_phys_size after) new_size))
    else (block, t)

unfoldable pub merge_prev : Tlsf → Ptr → Ptr × Tlsf
merge_prev t block =
    let prev = prev_phys t.mem block in
    let t1 = remove_free t prev in
    let new_size = add_size (add_size (size t1.mem prev) header_size) (size t1.mem block) in
    let m = set_size t1.mem prev new_size in
    let after = next_phys m prev in
    if prev_is_free t.mem block
    then (prev, with_mem t1 (update m (prev_phys_size after) new_size))
    else (block, t)

unfoldable pub free : Tlsf → Ptr → Tlsf
free t p =
    let (b1, t1) = merge_next (with_mem t (set_free t.mem (from_payload p))) (from_payload p) in
    let (b2, t2) = merge_prev t1 b1 in
    let next = next_phys t2.mem b2 in
    let m1 = mark_prev_free t2.mem next in
    let m2 = update m1 (prev_phys_size next) (size m1 b2) in
    if p == null then t else insert_free (with_mem t2 m2) b2

unfoldable pub usable_size : Mem → Ptr → ℕ
usable_size m p = if p == null then 0 else size m (from_payload p)

unfoldable pub add_pool : Tlsf → (base pool_size : ℕ) → Tlsf
add_pool t base pool_size =
    let payload_size = bit_and (pool_size - 2 * header_size) (not_size (align - 1)) in
    let m1 = clear_links (write_header t.mem base (bit_or payload_size f_free) 0) base in
    let m2 = write_header m1 (next_phys m1 base) f_prev_free payload_size in
    let t1 = record t { pool_start = base; pool_end = base + pool_size; mem = m2 } in
    if ltb pool_size (2 * header_size + min_payload) then t else insert_free t1 base
