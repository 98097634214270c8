-- ===== src/Tlsf/Pool/Start.antt =====
-- `add_pool` of src/tlsf.rs on a new allocator.
use ferrum_alloc.Base.{
  ℕ, ◌+◌, ◌-◌, ◌*◌, ◌/◌, ◌%◌, ◌^◌, ◌≤◌, ◌≡◌, ◌≢◌, refl, true, false, [], ◌∷◌, arith, bit_and, ltb,
}
use ferrum_alloc.Base.Bits.{bit_and-high}
use ferrum_alloc.Memory.{Ptr, null, Mem, update}
use ferrum_alloc.Tlsf.Mapping.{header_size, min_payload}
use ferrum_alloc.Tlsf.Block.{size, size_and_flags}
use ferrum_alloc.Tlsf.Block.Words.{IsSize, word, size_lem, or_flags}
use ferrum_alloc.Tlsf.Allocator.{Tlsf, new, add_pool, insert_free, write_header, clear_links}
use ferrum_alloc.Tlsf.Allocator.Bitmaps.{new-BitmapsAgree}
use ferrum_alloc.Tlsf.Allocator.Listed.{IsListed}
use ferrum_alloc.Tlsf.Pool.{used_part, free_part, free_size}
use ferrum_alloc.Tlsf.Pool.State.{IsPool, IsOpen, insert_free-IsPool}

-- The payload of the one block of a pool of `size` bytes.
abbrev pub pool_payload : ℕ → ℕ
pool_payload size = (size - 2 * header_size) / 16 * 16

-- A new allocator lists no block, wherever its pool is.
abbrev placed : Mem → (base pool_size : ℕ) → Tlsf
placed m base pool_size = record (new m) { pool_start = base; pool_end = base + pool_size }

placed-IsListed :
    (m : Mem) (base pool_size n : ℕ)
    → IsListed (placed m base pool_size) (free_size base (used_part n ∷ []))
placed-IsListed m base pool_size n =
    let v = new-BitmapsAgree m in
    record {
      bins = λ f l. [];
      agree = record {
        fl_word = v.fl_word;
        sl_word = v.sl_word;
        inside = v.inside;
        second = v.second;
        first = v.first;
      };
      linked = record { chain = λ f l. refl; unique = λ x f l g k h i. absurd (ground arith) };
      listed = λ f l x i. absurd (ground arith);
      complete = λ x has_size. absurd (has_size (ground arith));
    }

module _ (m : Mem) (base pool_size : ℕ) (low : 2 * header_size + min_payload ≤ pool_size)
    (high : pool_size ≤ 2 ^ 22) where
  abbrev n : ℕ
  n = pool_payload pool_size

  n-IsSize : IsSize n
  n-IsSize = record { even = omega arith; small = omega arith }

  -- The memory with the two headers.
  abbrev g1 : Mem
  g1 =
      update
        (update (update (update m base 0) (size_and_flags base) (word n true false))
          (base + header_size) null)
        (base + header_size + 8) null

  abbrev at_end : Ptr
  at_end = base + header_size + n

  abbrev g : Mem
  g = update (update g1 at_end n) (size_and_flags at_end) (word 0 false true)

  payload_lem : bit_and (pool_size - 2 * header_size) (2 ^ 64 - 16) ≡ n
  payload_lem = bit_and-high 64 4 (pool_size - 32) (omega arith) (omega arith)

  size_lem' : size g1 base ≡ n
  unfolding update
  size_lem' = size_lem g1 base n true false n-IsSize (ground arith)

  added : add_pool (new m) base pool_size ≡ insert_free (placed g base pool_size) base
  unfolding add_pool write_header clear_links
  added =
      let large : ltb pool_size (2 * header_size + min_payload) ≡ false = ground arith in
      rw (large, payload_lem, or_flags n true false n-IsSize, size_lem')

  opened : base ≢ null → base % 16 ≡ 0 → IsOpen (placed g base pool_size) base [] n true true []
  unfolding update
  opened real even = record {
    lay = record {
      real = real;
      even = even;
      front = tt;
      low = omega arith;
      whole = omega arith;
      back = tt;
      bound = omega arith;
    };
    tags = record {
      front = tt;
      own = ground arith;
      own_prev = ground arith;
      back = (ground arith, ground arith);
    };
    front = tt;
    back = tt;
    listed = placed-IsListed g base pool_size n;
  }

-- `add_pool` of 48 bytes to 4 MB at an aligned address that is not null makes a pool of one free
-- block on a new allocator.
pub add_pool-IsPool :
    (m : Mem) (base pool_size : ℕ)
    → base ≢ null
    → base % 16 ≡ 0
    → 2 * header_size + min_payload ≤ pool_size
    → pool_size ≤ 2 ^ 22
    → IsPool (add_pool (new m) base pool_size) base (free_part (pool_payload pool_size) ∷ [])
add_pool-IsPool m base pool_size real even low high = rw (added m base pool_size low high) (
    insert_free-IsPool (placed (g m base pool_size low high) base pool_size) base []
      (pool_payload pool_size) [] (opened m base pool_size low high real even) refl)
