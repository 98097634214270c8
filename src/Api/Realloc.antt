-- ===== src/Api/Realloc.antt =====
-- `ferrum_realloc`, `ferrum_calloc`, `calloc` and `posix_memalign` of src/api.rs. Blocks start at
-- multiples of 8, so a copy and a fill go word by word; of a last word they reach the low bytes.
use ferrum_alloc.Base.{
  ℕ, zero, suc, ◌+◌, ◌*◌, ◌/◌, ◌%◌, ◌^◌, min, Bool, not, ◌&&◌, ◌||◌, Option, none, some, ltb, leb,
  bit_and, ◌==◌, if◌then◌else◌,
}
use ferrum_alloc.Base.Word.{sub_size}
use ferrum_alloc.Memory.{Ptr, null, Mem, update}
use ferrum_alloc.Platform.{Os}
use ferrum_alloc.Huge.{huge_alloc}
use ferrum_alloc.Api.Global.{Global, global_mem}
use ferrum_alloc.Api.Malloc.{ferrum_malloc}
use ferrum_alloc.Api.Free.{ferrum_free, ferrum_usable_size}

-- The word `old` with its `n` low bytes from `new`.
abbrev pub low_bytes : (n old new : ℕ) → ℕ
low_bytes n old new = old / 2 ^ (8 * n) * 2 ^ (8 * n) + new % 2 ^ (8 * n)

unfoldable pub copy_words : ℕ → Mem → (src dst : Ptr) → Mem
copy_words zero m src dst = m
copy_words (suc k) m src dst = update (copy_words k m src dst) (dst + 8 * k) (m (src + 8 * k))

-- `copy_nonoverlapping` of `n` bytes.
unfoldable pub copy_bytes : Mem → (src dst : Ptr) → ℕ → Mem
copy_bytes m src dst n =
    let k = n / 8 in
    update (copy_words k m src dst) (dst + 8 * k)
      (low_bytes (n % 8) (m (dst + 8 * k)) (m (src + 8 * k)))

unfoldable pub zero_words : ℕ → Mem → Ptr → Mem
zero_words zero m p = m
zero_words (suc k) m p = update (zero_words k m p) (p + 8 * k) 0

-- `write_bytes` of `n` zero bytes.
unfoldable pub zero_bytes : Mem → Ptr → ℕ → Mem
zero_bytes m p n =
    let k = n / 8 in update (zero_words k m p) (p + 8 * k) (low_bytes (n % 8) (m (p + 8 * k)) 0)

-- `usize::is_power_of_two`
unfoldable pub is_power_of_two : ℕ → Bool
is_power_of_two n = not (n == 0) && bit_and n (sub_size n 1) == 0

module _ (os : Os) where
  abbrev pub Outcome : Type 0
  Outcome = Option (Ptr × os.State × Global)

  -- The block of `ferrum_malloc`, filled with `n` zero bytes.
  unfoldable pub zeroed : Outcome → ℕ → Outcome
  zeroed none n = none
  zeroed (some (p, s, g)) n =
      some (p, s, if p == null then g else global_mem g (zero_bytes g.heap.mem p n))

  unfoldable pub ferrum_calloc : ℕ → os.State → Global → (count size : ℕ) → Outcome
  ferrum_calloc fuel s g count size =
      let total = count * size in
      if leb (2 ^ 64) total
      then some (null, s, g)
      else zeroed (ferrum_malloc os fuel s g total) total

  unfoldable pub calloc : ℕ → os.State → Global → (nmemb size : ℕ) → Outcome
  calloc fuel s g nmemb size =
      let total_size = if leb (2 ^ 64) (nmemb * size) then 0 else nmemb * size in
      if total_size == 0
      then some (null, s, g)
      else zeroed (ferrum_malloc os fuel s g total_size) total_size

  -- The copy to the new block and the free of the old one.
  unfoldable pub move_block : Outcome → (p : Ptr) (old_size new_size : ℕ) → Outcome
  move_block none p old_size new_size = none
  move_block (some (q, s, g)) p old_size new_size =
      let copy_size = if ltb 0 old_size then min old_size new_size else new_size in
      if q == null
      then some (q, s, g)
      else elim (ferrum_free os s (global_mem g (copy_bytes g.heap.mem p q copy_size)) p) [
        | none ↦ none
        | some (s1, g1) ↦ some (q, s1, g1)
      ]

  unfoldable pub ferrum_realloc : ℕ → os.State → Global → Ptr → (new_size : ℕ) → Outcome
  ferrum_realloc fuel s g p new_size =
      let freed = elim (ferrum_free os s g p) as (λ _. Outcome) [
        | none ↦ none
        | some (s1, g1) ↦ some (null, s1, g1)
      ] in
      if p == null
      then ferrum_malloc os fuel s g new_size
      else if new_size == 0
      then freed
      else elim (ferrum_usable_size os s g p) [
        | none ↦ none
        | some (old_size, s1, g1) ↦
            move_block (ferrum_malloc os fuel s1 g1 new_size) p old_size new_size
      ]

  -- `EINVAL` is 22 and `ENOMEM` is 12.
  unfoldable pub memalign_code : Outcome → Option (ℕ × Ptr × os.State × Global)
  memalign_code none = none
  memalign_code (some (p, s, g)) = if p == null then some (12, null, s, g) else some (0, p, s, g)

  -- With the code, the pointer that goes to `*memptr` when the code is 0.
  unfoldable pub posix_memalign :
      ℕ → os.State → Global → (alignment size : ℕ) → Option (ℕ × Ptr × os.State × Global)
  posix_memalign fuel s g alignment size =
      let (p, s1, m) = huge_alloc os s g.heap.mem size in
      if not (alignment % 8 == 0) || not (is_power_of_two alignment)
      then some (22, null, s, g)
      else if leb alignment 16
      then memalign_code (ferrum_malloc os fuel s g size)
      else if leb alignment 4096
      then memalign_code (some (p, s1, global_mem g m))
      else memalign_code (some (null, s, g))
