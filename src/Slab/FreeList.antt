-- ===== src/Slab/FreeList.antt =====
-- The chain of free slots inside a page of src/slab.rs: made by `init_page`, popped by an allocation
-- and pushed by a free.
use ferrum_alloc.Base.{
  ℕ, zero, suc, ◌+◌, ◌-◌, ◌*◌, ◌≤◌, ◌<◌, ◌≡◌, ◌≢◌, refl, ◌∙◌, Bool, true, false, ◌&&◌, ◌||◌, List,
  [], ◌∷◌, arith, ◌==◌, leb, ltb, if◌then◌else◌, length, dec_lt, subst, Bool-cases, inl, inr,
}
use ferrum_alloc.Memory.{Mem, update, read_u16, write_u16}
use ferrum_alloc.Memory.Access.{read_u16-write_u16, read_u16-write_u16_ne}
use ferrum_alloc.Page.{null_slot}
use ferrum_alloc.Slab.{link_slots, init_slots}

abbrev pub has : ℕ → List ℕ → Bool
has a [] = false
has a (b ∷ bs) = (a == b) || has a bs

-- `k` indices from `i` on.
abbrev pub range : (i k : ℕ) → List ℕ
range i zero = []
range i (suc k) = i ∷ range (i + 1) k

module _ (base sz n : ℕ) where
  -- From index `head` the slots hold the indices of the distinct free slots `fs`, all below `n`.
  abbrev pub FreeList : Mem → (head : ℕ) → List ℕ → Type 0
  FreeList m head [] = head ≡ null_slot
  FreeList m head (i ∷ is) =
      (head ≡ i) × (i < n) × (has i is ≡ false) × FreeList m (read_u16 m (base + i * sz)) is

  pub FreeList-frame :
      (m g : Mem) (is : List ℕ) (head : ℕ)
      → FreeList m head is
      → ((i : ℕ) → has i is ≡ true → read_u16 g (base + i * sz) ≡ read_u16 m (base + i * sz))
      → FreeList g head is
  FreeList-frame m g [] head c same = c
  FreeList-frame m g (i ∷ is) head (e, small, new, rest) same = (
    e,
    small,
    new,
    rw (same i (ground arith)) (FreeList-frame m g is _ rest (λ j h. same j (ground arith))),
  )

-- Slots of different indices start at different addresses.
pub slot-ne : (base sz i j : ℕ) → 0 < sz → i ≢ j → base + i * sz ≢ base + j * sz
slot-ne base sz i j pos ne e = elim (dec_lt i j) [
  | yes lt ↦ let step : (i + 1) * sz ≤ j * sz = grind arith in omega arith
  | no ge ↦ let step : (j + 1) * sz ≤ i * sz = grind arith in omega arith
]

-- A slot pushed on a free list.
pub FreeList-push :
    (base sz n : ℕ) (m : Mem) (fs : List ℕ) (head i : ℕ)
    → 0 < sz
    → head < 65536
    → i < n
    → has i fs ≡ false
    → FreeList base sz n m head fs
    → FreeList base sz n (write_u16 m (base + i * sz) head) i (i ∷ fs)
FreeList-push base sz n m fs head i pos word small new c = (
  refl,
  small,
  new,
  rw (read_u16-write_u16 m (base + i * sz) head word) (
      FreeList-frame base sz n m _ fs head c λ j h.
        read_u16-write_u16_ne m (base + i * sz) (base + j * sz) head
          (slot-ne base sz j i pos (λ e. ground arith))),
)

has-range : (a i k : ℕ) → a < i → has a (range i k) ≡ false
has-range a i zero h = refl
has-range a i (suc k) h = ground (arith, has-range a (i + 1) k)

pub has-range_in : (a i k : ℕ) → i ≤ a → a < i + k → has a (range i k) ≡ true
has-range_in a i zero low high = absurd (omega arith)
has-range_in a i (suc k) low high = ground (arith, has-range_in a (i + 1) k)

pub length-range : (i k : ℕ) → length (range i k) ≡ k
length-range i zero = refl
length-range i (suc k) = omega (arith, length-range (i + 1) k)

module _ (base sz : ℕ) (pos : 0 < sz) where
  slot-read :
      (m : Mem) (i j v : ℕ)
      → v < 65536
      → read_u16 (write_u16 m (base + i * sz) v) (base + j * sz)
        ≡ (if i == j then v else read_u16 m (base + j * sz))
  slot-read m i j v word = elim (Bool-cases (i == j)) [
    | inl e ↦
        let same : i ≡ j = ground arith in
        rw e (
          subst (λ k. read_u16 (write_u16 m (base + i * sz) v) (base + k * sz) ≡ v) same
            (read_u16-write_u16 m (base + i * sz) v word))
    | inr d ↦ rw d (
        read_u16-write_u16_ne m (base + i * sz) (base + j * sz) v
          (slot-ne base sz j i pos (λ e. ground arith)))
  ]

  link_slots-read :
      (r i : ℕ) (m : Mem) (j : ℕ)
      → i + r < 65536
      → read_u16 (link_slots r i base sz m) (base + j * sz)
        ≡ (if leb i j && ltb j (i + r) then j + 1 else read_u16 m (base + j * sz))
  unfolding link_slots
  link_slots-read zero i m j small = ground arith
  link_slots-read (suc r) i m j small = ground (
    arith,
    link_slots-read r (i + 1) (write_u16 m (base + i * sz) (i + 1)) j (omega arith),
    slot-read m i j (i + 1),
  )

  init_slots-read :
      (n : ℕ) (m : Mem) (j : ℕ)
      → 0 < n
      → n < 65536
      → j < n
      → read_u16 (init_slots base sz n m) (base + j * sz)
        ≡ (if j == n - 1 then null_slot else j + 1)
  unfolding init_slots
  init_slots-read n m j some small lt = ground (
    arith,
    link_slots-read (n - 1) 0 m j (omega arith),
    slot-read (link_slots (n - 1) 0 base sz m) (n - 1) j null_slot,
  )

  init_slots-tail :
      (n : ℕ) (m : Mem) (k i : ℕ)
      → 0 < n
      → n < 65535
      → i + k ≡ n
      → FreeList base sz n (init_slots base sz n m) (if i == n then null_slot else i) (range i k)
  init_slots-tail n m zero i some small sum = ground arith
  init_slots-tail n m (suc k) i some small sum = (
    ground arith,
    omega arith,
    has-range i (i + 1) k (omega arith),
    subst (λ h. FreeList base sz n (init_slots base sz n m) h (range (i + 1) k))
        (ground (arith, init_slots-read n m i some (omega arith)))
        (init_slots-tail n m k (i + 1) some small (omega arith)),
  )

  -- A new page chains all of its slots in order.
  pub init_slots-FreeList :
      (n : ℕ) (m : Mem)
      → 0 < n
      → n < 65535
      → FreeList base sz n (init_slots base sz n m) 0 (range 0 n)
  init_slots-FreeList n m some small =
      let start : (if 0 == n then null_slot else 0) ≡ 0 = ground arith in
      rw start at (init_slots-tail n m n 0 some small (omega arith))

  -- Words that start no slot stay.
  link_slots-outside :
      (r i : ℕ) (m : Mem) (q : ℕ)
      → ((j : ℕ) → j < i + r → q ≢ base + j * sz)
      → link_slots r i base sz m q ≡ m q
  unfolding link_slots write_u16 update
  link_slots-outside zero i m q out = refl
  link_slots-outside (suc r) i m q out =
      link_slots-outside r (i + 1) (write_u16 m (base + i * sz) (i + 1)) q
        (λ j lt. out j (omega arith))
      ∙ ground (arith, out i (omega arith))

  pub init_slots-outside :
      (n : ℕ) (m : Mem) (q : ℕ)
      → 0 < n
      → ((j : ℕ) → j < n → q ≢ base + j * sz)
      → init_slots base sz n m q ≡ m q
  unfolding init_slots write_u16 update
  init_slots-outside n m q some out =
      ground (arith, out (n - 1) (omega arith))
      ∙ link_slots-outside (n - 1) 0 m q (λ j lt. out j (omega arith))
