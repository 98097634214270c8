-- ===== src/Slab/Distinct.antt =====
-- The free slots of a page of src/slab.rs are different ones, so there are no more than the page has.
use ferrum_alloc.Base.{
  ℕ, zero, suc, ◌+◌, ◌*◌, ◌≤◌, ◌<◌, ◌≡◌, ◌≢◌, refl, true, false, List, [], ◌∷◌, arith, ◌==◌,
  if◌then◌else◌, Bool-cases, inl, inr, length,
}
use ferrum_alloc.Memory.{Mem, read_u16}
use ferrum_alloc.Page.{PageMeta, Heap}
use ferrum_alloc.Platform.{page_size}
use ferrum_alloc.SizeClass.{class_to_size, slots_per_page}
use ferrum_alloc.Slab.FreeList.{has, FreeList, FreeList-frame}
use ferrum_alloc.Slab.Slots.{IsPage, PageOf}

-- Distinct numbers below `n` are at most `n`.
abbrev without : ℕ → List ℕ → List ℕ
without a [] = []
without a (b ∷ bs) = if a == b then bs else b ∷ without a bs

length-without : (a : ℕ) (fs : List ℕ) → length fs ≤ suc (length (without a fs))
length-without a [] = omega arith
length-without a (b ∷ bs) = ground (arith, length-without a bs)

-- The free slots of a page in the order of the chain.
abbrev Distinct : (n : ℕ) → List ℕ → Type 0
Distinct n [] = Unit {0}
Distinct n (f ∷ fs) = (f < n) × (has f fs ≡ false) × Distinct n fs

has-without : (a b : ℕ) (fs : List ℕ) → has b fs ≡ false → has b (without a fs) ≡ false
has-without a b [] out = refl
has-without a b (f ∷ fs) out = ground (arith, has-without a b fs)

Distinct-keep : (n : ℕ) (fs : List ℕ) → Distinct (suc n) fs → has n fs ≡ false → Distinct n fs
Distinct-keep n [] d out = tt
Distinct-keep n (f ∷ fs) (small, new, d) out =
    (ground arith, new, Distinct-keep n fs d (ground arith))

Distinct-without : (n : ℕ) (fs : List ℕ) → Distinct (suc n) fs → Distinct n (without n fs)
Distinct-without n [] d = tt
Distinct-without n (f ∷ fs) (small, new, d) = elim (Bool-cases (n == f)) [
  | inl e ↦ rw e (Distinct-keep n fs d (ground arith))
  | inr ne ↦ rw ne (ground arith, has-without n f fs new, Distinct-without n fs d)
]

Distinct-length : (n : ℕ) (fs : List ℕ) → Distinct n fs → length fs ≤ n
Distinct-length zero [] d = omega arith
Distinct-length zero (f ∷ fs) (small, new, d) = absurd (omega arith)
Distinct-length (suc n) fs d =
    omega (arith, length-without n fs, Distinct-length n (without n fs) (Distinct-without n fs d))

FreeList-Distinct :
    (base sz n : ℕ) (m : Mem) (fs : List ℕ) (head : ℕ)
    → FreeList base sz n m head fs
    → Distinct n fs
FreeList-Distinct base sz n m [] head c = tt
FreeList-Distinct base sz n m (f ∷ fs) head (e, small, new, rest) =
    (small, new, FreeList-Distinct base sz n m fs (read_u16 m (base + f * sz)) rest)

Distinct-lt : (n j : ℕ) (fs : List ℕ) → Distinct n fs → has j fs ≡ true → j < n
Distinct-lt n j [] d i = absurd (ground arith)
Distinct-lt n j (f ∷ fs) (small, new, d) i = ground (arith, Distinct-lt n j fs d)

page-Distinct :
    (mem : Mem) (m : PageMeta) (c : ℕ) (fs : List ℕ)
    → PageOf mem m c fs
    → Distinct (slots_per_page c page_size) fs
page-Distinct mem m c fs v =
    FreeList-Distinct m.page_addr (class_to_size c) (slots_per_page c page_size) mem fs
      m.free_list_head v.chain

-- A page that lacks a slot has a used one.
pub used-pos :
    (h : Heap) (x c i : ℕ) (fs : List ℕ)
    → IsPage h x c fs
    → i < slots_per_page c page_size
    → has i fs ≡ false
    → 0 < (h.metas x).used_slots
used-pos h x c i fs v small new =
    let n : ℕ = slots_per_page c page_size in
    let d = page-Distinct h.mem (h.metas x) c fs v in
    omega (arith, v.counted, Distinct-length n (i ∷ fs) (small, new, d))

-- The words of a page's free slots stay.
pub PageOf-frame :
    (mem mem' : Mem) (m : PageMeta) (c : ℕ) (fs : List ℕ)
    → ((j : ℕ)
        → has j fs ≡ true
        → j < slots_per_page c page_size
        → read_u16 mem' (m.page_addr + j * class_to_size c)
          ≡ read_u16 mem (m.page_addr + j * class_to_size c))
    → PageOf mem m c fs
    → PageOf mem' m c fs
PageOf-frame mem mem' m c fs same v = record {
  known = v.known;
  classed = v.classed;
  chain =
      FreeList-frame m.page_addr (class_to_size c) (slots_per_page c page_size) mem mem' fs
        m.free_list_head v.chain
        (λ j i.
          same j i (Distinct-lt (slots_per_page c page_size) j fs (page-Distinct mem m c fs v) i));
  counted = v.counted;
}

without-in : (a b : ℕ) (fs : List ℕ) → b ≢ a → has b fs ≡ true → has b (without a fs) ≡ true
without-in a b [] ne i = absurd (ground arith)
without-in a b (f ∷ fs) ne i = ground (arith, without-in a b fs)

without-shorter : (a : ℕ) (fs : List ℕ) → has a fs ≡ true → suc (length (without a fs)) ≤ length fs
without-shorter a [] i = absurd (ground arith)
without-shorter a (f ∷ fs) i = ground (arith, without-shorter a fs)

-- A list with all numbers below `n` has at least `n` of them.
pub all-length : (n : ℕ) (fs : List ℕ) → ((j : ℕ) → j < n → has j fs ≡ true) → n ≤ length fs
all-length zero fs all = omega arith
all-length (suc n) fs all = omega (
  arith,
  without-shorter n fs (all n (omega arith)),
  all-length n (without n fs) (λ j lt. without-in n j fs (λ e. omega arith) (all j (omega arith))),
)
