-- ===== src/Tlsf/Allocator/Bitmaps.antt =====
-- The bitmaps of src/tlsf.rs: they mark exactly the lists that are not empty, and both list
-- operations keep it so.
use ferrum_alloc.Base.{ℕ, ◌^◌, ◌<◌, ◌≡◌, ◌≢◌, refl, ◌↔◌, bit_and, bit_or, arith, ◌⊎◌}
use ferrum_alloc.Base.Bits.{bit, bit-zero, bit_and-lt, bit_or-lt}
use ferrum_alloc.Base.Bitmap.{bit-set, bit-clear}
use ferrum_alloc.Base.Word.{not_u32, shl_u32}
use ferrum_alloc.Memory.{Ptr, Mem, null, update}
use ferrum_alloc.Tlsf.Mapping.{fl_count, sl_count, mapping}
use ferrum_alloc.Tlsf.Block.{size}
use ferrum_alloc.Tlsf.Allocator.{Tlsf, new, insert_free, clear_bits, remove_free}

-- A bit of the second level is set when its list is not empty, and a bit of the first level when a
-- bit of the second level below it is set; the lists that are in use lie in the table.
pub record BitmapsAgree (t : Tlsf) : Type 0 where
  pub fl_word : t.fl_bitmap < 2 ^ 32
  pub sl_word : (f : ℕ) → t.sl_bitmaps f < 2 ^ 32
  pub inside : (f l : ℕ) → t.lists f l ≢ null → (f < fl_count) × (l < sl_count)
  pub second : (f l : ℕ) → l < 32 → (bit (t.sl_bitmaps f) l ≡ 1) ↔ (t.lists f l ≢ null)
  pub first : (f : ℕ) → f < 32 → (bit t.fl_bitmap f ≡ 1) ↔ (t.sl_bitmaps f ≢ 0)

-- A word with a bit is not 0.
pub ne-zero_of_bit : (m i : ℕ) → bit m i ≡ 1 → m ≢ 0
ne-zero_of_bit m i h e = let gone : bit m i ≡ 0 = rw e (bit-zero i) in omega arith

bit_or-ne_zero : (m k : ℕ) → k < 32 → bit_or m (shl_u32 1 k) ≢ 0
bit_or-ne_zero m k h = ne-zero_of_bit (bit_or m (shl_u32 1 k)) k (ground (arith, bit-set m k k h))

bit_or-word : (m k : ℕ) → m < 2 ^ 32 → k < 32 → bit_or m (shl_u32 1 k) < 2 ^ 32
bit_or-word m k h lt = bit_or-lt 32 m (shl_u32 1 k) h (omega arith)

-- `insert_free` of a block whose bin is inside the table keeps the bitmaps in agreement with the
-- lists.
pub insert_free-BitmapsAgree :
    (t : Tlsf) (block : Ptr)
    → block ≢ null
    → (mapping (size t.mem block)).0 < fl_count
    → (mapping (size t.mem block)).1 < sl_count
    → BitmapsAgree t
    → BitmapsAgree (insert_free t block)
unfolding insert_free update
insert_free-BitmapsAgree t block real hf hl v =
    let f0 : ℕ = (mapping (size t.mem block)).0 in
    let l0 : ℕ = (mapping (size t.mem block)).1 in
    record {
      fl_word = bit_or-word t.fl_bitmap f0 v.fl_word (omega arith);
      sl_word = λ f. ground (arith, v.sl_word f, v.sl_word f0, bit_or-word (t.sl_bitmaps f0) l0);
      inside = λ f l h. ground (arith, v.inside f l);
      second =
          λ f l h. ground (arith, v.second f l h, v.second f0 l h, bit-set (t.sl_bitmaps f0) l0 l);
      first = λ f h.
          ground
            (arith, v.first f h, bit-set t.fl_bitmap f0 f, bit_or-ne_zero (t.sl_bitmaps f0) l0);
    }

bit_and-word : (m k : ℕ) → m < 2 ^ 32 → bit_and m (not_u32 (shl_u32 1 k)) < 2 ^ 32
bit_and-word m k h = bit_and-lt 32 m (not_u32 (shl_u32 1 k)) h

-- What `remove_free` has done when only the bits are left to clear: the list of one bin differs.
record IsRelinked (t t2 : Tlsf) (f0 l0 : ℕ) : Type 0 where
  same_fl : t2.fl_bitmap ≡ t.fl_bitmap
  same_sl : (f : ℕ) → t2.sl_bitmaps f ≡ t.sl_bitmaps f
  elsewhere : (f l : ℕ) → (f ≢ f0) ⊎ (l ≢ l0) → t2.lists f l ≡ t.lists f l

module _ (t t2 : Tlsf) (f0 l0 : ℕ) (v : BitmapsAgree t) (used : t.lists f0 l0 ≢ null)
    (r : IsRelinked t t2 f0 l0) where
  clear_bits-BitmapsAgree : BitmapsAgree (clear_bits t2 f0 l0)
  unfolding clear_bits update
  clear_bits-BitmapsAgree =
      let (hf, hl) = v.inside f0 l0 used in
      record {
        fl_word = ground (arith, v.fl_word, r.same_fl, bit_and-word t2.fl_bitmap f0);
        sl_word = λ f. ground (
          arith,
          v.sl_word f,
          r.same_sl f,
          r.same_sl f0,
          v.sl_word f0,
          bit_and-word (t2.sl_bitmaps f0) l0,
        );
        inside = λ f l h. ground (arith, v.inside f l, r.elsewhere f l);
        second = λ f l h. ground (
          arith,
          v.second f l h,
          v.second f0 l h,
          r.elsewhere f l,
          r.same_sl f,
          r.same_sl f0,
          bit-clear (t2.sl_bitmaps f0) l0 l,
        );
        first = λ f h. ground (
          arith,
          v.first f h,
          r.same_fl,
          r.same_sl f,
          r.same_sl f0,
          v.second f0 l0,
          ne-zero_of_bit (t.sl_bitmaps f0) l0,
          bit-clear t2.fl_bitmap f0 f,
        );
      }

-- `remove_free` of a block whose bin is in use keeps the bitmaps in agreement with the lists.
pub remove_free-BitmapsAgree :
    (t : Tlsf) (block : Ptr)
    → t.lists (mapping (size t.mem block)).0 (mapping (size t.mem block)).1 ≢ null
    → BitmapsAgree t
    → BitmapsAgree (remove_free t block)
unfolding remove_free update
remove_free-BitmapsAgree t block used v =
    clear_bits-BitmapsAgree t _ (mapping (size t.mem block)).0 (mapping (size t.mem block)).1 v used
      (record {
        same_fl = ground arith;
        same_sl = λ f. ground arith;
        elsewhere = λ f l ne. ground arith;
      })

-- A new allocator has no list in use and no bit set.
pub new-BitmapsAgree : (m : Mem) → BitmapsAgree (new m)
new-BitmapsAgree m = record {
  fl_word = omega arith;
  sl_word = λ f. omega arith;
  inside = λ f l h. absurd (h refl);
  second = λ f l h. ground (arith, bit-zero l);
  first = λ f h. ground (arith, bit-zero f);
}
