-- ===== src/Page.antt =====
-- `PageMeta` of src/slab.rs, and the memory that the arena and the slabs share: data words, and the
-- array of `PageMeta`, which lies on pages 1 to 4 of an arena and which nothing else touches, at the
-- addresses of its entries.
use ferrum_alloc.Base.{ℕ}
use ferrum_alloc.Memory.{Ptr, null, Mem, update}

abbrev pub null_slot : ℕ
null_slot = 0xFFFF

pub record PageMeta : Type 0 where
  pub size_class : ℕ
  pub owner_id : ℕ
  pub used_slots : ℕ
  pub free_list_head : ℕ
  pub next_page : Ptr
  pub prev_page : Ptr
  pub page_addr : Ptr

abbrev pub empty : PageMeta
empty = record {
  size_class = 0xFF;
  owner_id = 0xFFFF;
  used_slots = 0;
  free_list_head = null_slot;
  next_page = null;
  prev_page = null;
  page_addr = null;
}

pub record Heap : Type 0 where
  pub mem : Mem
  pub metas : Ptr → PageMeta

abbrev pub set_meta : Heap → Ptr → PageMeta → Heap
set_meta h p m = record h { metas = update h.metas p m }

abbrev pub set_mem : Heap → Mem → Heap
set_mem h m = record h { mem = m }
