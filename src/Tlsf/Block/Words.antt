-- ===== src/Tlsf/Block/Words.antt =====
-- The word `size_and_flags` of src/tlsf.rs as a size and two flags, and the header operations on it.
use ferrum_alloc.Base.{
  ℕ, ◌+◌, ◌-◌, ◌*◌, ◌/◌, ◌%◌, ◌^◌, ◌<◌, ◌≡◌, min, max, Bool, true, false, bit_and, bit_or, arith,
  if◌then◌else◌,
}
use ferrum_alloc.Base.Bits.{bit_and-halves, bit_or-halves, bit_and-zero, bit_or-zero, bit_and-ones}
use ferrum_alloc.Memory.{Ptr, Mem, update}
use ferrum_alloc.Tlsf.Block.{
  size_and_flags, size, set_size, is_free, prev_is_free, set_free, mark_used, mark_prev_free,
  mark_prev_used, size_mask,
}

-- The flags of a block that is free or not, behind one that is free or not.
abbrev pub flags : (free prev_free : Bool) → ℕ
flags free prev_free = (if free then 1 else 0) + (if prev_free then 2 else 0)

abbrev pub word : (n : ℕ) (free prev_free : Bool) → ℕ
word n free prev_free = n + flags free prev_free

-- A size that a header can hold.
pub record IsSize (n : ℕ) : Type 0 where
  pub even : n % 16 ≡ 0
  pub small : n < 2 ^ 63

-- The two low bits apart.
quarter-and :
    (x y : ℕ)
    → bit_and x y
      ≡ 4 * bit_and (x / 2 / 2) (y / 2 / 2) + 2 * min (x / 2 % 2) (y / 2 % 2) + min (x % 2) (y % 2)
quarter-and x y = omega (arith, bit_and-halves x y, bit_and-halves (x / 2) (y / 2))

quarter-or :
    (x y : ℕ)
    → bit_or x y
      ≡ 4 * bit_or (x / 2 / 2) (y / 2 / 2) + 2 * max (x / 2 % 2) (y / 2 % 2) + max (x % 2) (y % 2)
quarter-or x y = omega (arith, bit_or-halves x y, bit_or-halves (x / 2) (y / 2))

module _ (n : ℕ) (free prev_free : Bool) (v : IsSize n) where
  abbrev w : ℕ
  w = word n free prev_free

  fits : w < 2 ^ 64
  fits = ground (arith, v.small)

  rest_size : w / 2 / 2 ≡ n / 4
  rest_size = ground (arith, v.even)

  and_rest : bit_and (w / 2 / 2) 0 ≡ 0
  and_rest = bit_and-zero 64 (w / 2 / 2) (omega (arith, fits))

  or_rest : bit_or (w / 2 / 2) 0 ≡ w / 2 / 2
  or_rest = bit_or-zero 64 (w / 2 / 2) (omega (arith, fits))

  and_ones : bit_and (w / 2 / 2) (2 ^ 62 - 1) ≡ w / 2 / 2
  and_ones = bit_and-ones 62 (w / 2 / 2) (omega (arith, fits))

  size_word : bit_and w size_mask ≡ n
  size_word = ground (arith, quarter-and w size_mask, and_ones, v.even)

  low_word : bit_and w 3 ≡ flags free prev_free
  low_word = ground (arith, quarter-and w 3, and_rest, v.even)

  free_word : bit_and w 1 ≡ (if free then 1 else 0)
  free_word = ground (arith, quarter-and w 1, and_rest, v.even)

  prev_free_word : bit_and w 2 ≡ (if prev_free then 2 else 0)
  prev_free_word = ground (arith, quarter-and w 2, and_rest, v.even)

  used_word : bit_and w (2 ^ 64 - 2) ≡ word n false prev_free
  used_word = ground (arith, quarter-and w (2 ^ 64 - 2), and_ones, v.even)

  prev_used_word : bit_and w (2 ^ 64 - 3) ≡ word n free false
  prev_used_word = ground (arith, quarter-and w (2 ^ 64 - 3), and_ones, v.even)

  set_free_word : bit_or w 1 ≡ word n true prev_free
  set_free_word = ground (arith, quarter-or w 1, or_rest, v.even)

  set_prev_free_word : bit_or w 2 ≡ word n free true
  set_prev_free_word = ground (arith, quarter-or w 2, or_rest, v.even)

-- A size with the flags put in.
pub or_flags :
    (n : ℕ) (free prev_free : Bool)
    → IsSize n
    → bit_or n (flags free prev_free) ≡ word n free prev_free
or_flags n true true v =
    ground
      (arith, set_prev_free_word n false false v, quarter-or n 3, or_rest n false false v, v.even)
or_flags n true false v = ground (arith, quarter-or n 1, or_rest n false false v, v.even)
or_flags n false true v = ground (arith, quarter-or n 2, or_rest n false false v, v.even)
or_flags n false false v = ground (arith, quarter-or n 0, or_rest n false false v, v.even)

-- The header of the block at `b` holds the size `n` and the two flags.
abbrev pub HasWord : Mem → Ptr → (n : ℕ) (free prev_free : Bool) → Type 0
HasWord m b n free prev_free = m (size_and_flags b) ≡ word n free prev_free

module _ (m : Mem) (b n : ℕ) (free prev_free : Bool) (v : IsSize n)
    (h : HasWord m b n free prev_free) where
  pub size_lem : size m b ≡ n
  unfolding size
  size_lem = rw h (size_word n free prev_free v)

  pub is_free_lem : is_free m b ≡ free
  unfolding is_free
  is_free_lem = rw h (ground (arith, free_word n free prev_free v))

  pub prev_is_free_lem : prev_is_free m b ≡ prev_free
  unfolding prev_is_free
  prev_is_free_lem = rw h (ground (arith, prev_free_word n free prev_free v))

  pub set_size_lem :
      (s : ℕ) → IsSize s → set_size m b s ≡ update m (size_and_flags b) (word s free prev_free)
  unfolding set_size
  set_size_lem s u = rw (h, low_word n free prev_free v, or_flags s free prev_free u)

  pub set_free_lem : set_free m b ≡ update m (size_and_flags b) (word n true prev_free)
  unfolding set_free
  set_free_lem = rw (h, set_free_word n free prev_free v)

  pub mark_used_lem : mark_used m b ≡ update m (size_and_flags b) (word n false prev_free)
  unfolding mark_used
  mark_used_lem = rw (h, used_word n free prev_free v)

  pub mark_prev_free_lem : mark_prev_free m b ≡ update m (size_and_flags b) (word n free true)
  unfolding mark_prev_free
  mark_prev_free_lem = rw (h, set_prev_free_word n free prev_free v)

  pub mark_prev_used_lem : mark_prev_used m b ≡ update m (size_and_flags b) (word n free false)
  unfolding mark_prev_used
  mark_prev_used_lem = rw (h, prev_used_word n free prev_free v)
