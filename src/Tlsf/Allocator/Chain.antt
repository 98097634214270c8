-- ===== src/Tlsf/Allocator/Chain.antt =====
-- A doubly linked list of free blocks in memory (src/tlsf.rs), and what its two writes do to it.
use ferrum_alloc.Base.{
  ◌%◌, ◌≡◌, ◌≢◌, refl, Bool, true, false, ◌||◌, List, [], ◌∷◌, arith, ◌==◌, if◌then◌else◌,
  Bool-cases, ◌⊎◌, inl, inr,
}
use ferrum_alloc.Memory.{Ptr, null, Mem, update}
use ferrum_alloc.Tlsf.Block.{link_prev, link_next}
use ferrum_alloc.Tlsf.Allocator.{link}

abbrev pub has : Ptr → List Ptr → Bool
has a [] = false
has a (b ∷ bs) = (a == b) || has a bs

abbrev pub erase : Ptr → List Ptr → List Ptr
erase a [] = []
erase a (b ∷ bs) = if a == b then bs else b ∷ erase a bs

-- From `p` the links run through the distinct blocks `bs`, each back to the one before it; the
-- first one goes back to `prev`.
abbrev pub Chain : Mem → (prev p : Ptr) → List Ptr → Type 0
Chain m prev p [] = p ≡ null
Chain m prev p (b ∷ bs) =
    (p ≡ b)
    × (b ≢ null)
    × (b % 16 ≡ 0)
    × (has b bs ≡ false)
    × (m (link_prev b) ≡ prev)
    × Chain m b (m (link_next b)) bs

-- Two memories have the same links at block `b`.
abbrev pub SameLinks : Mem → Mem → Ptr → Type 0
SameLinks m g b = (g (link_prev b) ≡ m (link_prev b)) × (g (link_next b) ≡ m (link_next b))

pub Chain-frame :
    (m g : Mem) (bs : List Ptr) (prev p : Ptr)
    → Chain m prev p bs
    → ((b : Ptr) → has b bs ≡ true → b % 16 ≡ 0 → SameLinks m g b)
    → Chain g prev p bs
Chain-frame m g [] prev p c same = c
Chain-frame m g (b ∷ bs) prev p (e, real, even, new, back, rest) same =
    let (s1, s2) = same b (ground arith) even in
    (
      e,
      real,
      even,
      new,
      ground arith,
      rw s2 (Chain-frame m g bs b (m (link_next b)) rest (λ x i. same x (ground arith))),
    )

-- The same chain behind another block, when only the link of its first block has changed.
pub Chain-behind :
    (m g : Mem) (bs : List Ptr) (prev p q : Ptr)
    → Chain m prev p bs
    → (p ≢ null → p % 16 ≡ 0 → (g (link_prev p) ≡ q) × (g (link_next p) ≡ m (link_next p)))
    → ((b : Ptr) → has b bs ≡ true → b % 16 ≡ 0 → b ≢ p → SameLinks m g b)
    → Chain g q p bs
Chain-behind m g [] prev p q c first same = c
Chain-behind m g (b ∷ bs) prev p q (e, real, even, new, back, rest) first same =
    let (f1, f2) = first (ground arith) (ground arith) in
    let after : g (link_next b) ≡ m (link_next b) = rw e at f2 in
    (
      e,
      real,
      even,
      new,
      rw e at f1,
      rw after (
          Chain-frame m g bs b (m (link_next b)) rest
            (λ x i even_x. same x (ground arith) even_x (ground arith))),
    )

-- Every other block keeps its links.
pub link-SameLinks :
    (m : Mem) (block head x : Ptr)
    → block % 16 ≡ 0
    → head % 16 ≡ 0
    → x % 16 ≡ 0
    → x ≢ block
    → x ≢ head
    → SameLinks m (link m block head) x
unfolding link update
link-SameLinks m block head x eb eh ex nb nh = ground arith

pub head-even : (m : Mem) (bs : List Ptr) (prev p : Ptr) → Chain m prev p bs → p % 16 ≡ 0
head-even m [] prev p c = ground arith
head-even m (b ∷ bs) prev p c = ground arith

pub head-mem :
    (m : Mem) (bs : List Ptr) (prev p : Ptr) → Chain m prev p bs → (p ≡ null) ⊎ (has p bs ≡ true)
head-mem m [] prev p c = inl c
head-mem m (b ∷ bs) prev p c = inr (ground arith)

link-own :
    (m : Mem) (block head : Ptr)
    → block % 16 ≡ 0
    → head % 16 ≡ 0
    → head ≢ block
    → (link m block head (link_prev block) ≡ null) × (link m block head (link_next block) ≡ head)
unfolding link update
link-own m block head eb eh ne = ground arith

link-head :
    (m : Mem) (block head : Ptr)
    → block % 16 ≡ 0
    → head % 16 ≡ 0
    → head ≢ block
    → head ≢ null
    → (link m block head (link_prev head) ≡ block)
      × (link m block head (link_next head) ≡ m (link_next head))
unfolding link update
link-head m block head eb eh ne nn = ground arith

-- `link` puts a new block in front of a chain.
pub Chain-link :
    (m : Mem) (bs : List Ptr) (block head : Ptr)
    → block ≢ null
    → block % 16 ≡ 0
    → has block bs ≡ false
    → Chain m null head bs
    → Chain (link m block head) null block (block ∷ bs)
Chain-link m bs block head real even new c =
    let eh : head % 16 ≡ 0 = head-even m bs null head c in
    let ne : head ≢ block = λ e. ground (arith, head-mem m bs null head c) in
    let (back, next) = link-own m block head even eh ne in
    (
      refl,
      real,
      even,
      new,
      back,
      rw next (
          Chain-behind m (link m block head) bs null head block c
            (λ nn _. link-head m block head even eh ne nn)
            (λ x i ex nx. link-SameLinks m block head x even eh ex (λ e. ground arith) nx)),
    )

-- The two writes of `remove_free`.
unfoldable pub unlink : Mem → Ptr → Mem
unlink m block =
    let prev = m (link_prev block) in
    let next = m (link_next block) in
    let m1 = if prev == null then m else update m (link_next prev) next in
    if next == null then m1 else update m1 (link_prev next) prev

-- The neighbours of a block of a chain.
pub next-even :
    (m : Mem) (bs : List Ptr) (prev p x : Ptr)
    → Chain m prev p bs
    → has x bs ≡ true
    → m (link_next x) % 16 ≡ 0
next-even m [] prev p x c i = cc
next-even m (b ∷ bs) prev p x (e, real, even, new, back, rest) i = elim (Bool-cases (x == b)) [
  | inl here ↦ let same : x ≡ b = ground arith in rw same (head-even m bs b _ rest)
  | inr there ↦ next-even m bs b _ x rest (ground arith)
]

pub prev-mem :
    (m : Mem) (bs : List Ptr) (prev p x : Ptr)
    → Chain m prev p bs
    → has x bs ≡ true
    → ((x ≡ p) × (m (link_prev x) ≡ prev)) ⊎ (has (m (link_prev x)) bs ≡ true)
prev-mem m [] prev p x c i = cc
prev-mem m (b ∷ bs) prev p x (e, real, even, new, back, rest) i = elim (Bool-cases (x == b)) [
  | inl here ↦ inl (ground arith, ground arith)
  | inr there ↦ inr (ground (arith, prev-mem m bs b (m (link_next b)) x rest))
]

pub next-mem :
    (m : Mem) (bs : List Ptr) (prev p x : Ptr)
    → Chain m prev p bs
    → has x bs ≡ true
    → (m (link_next x) ≡ null) ⊎ (has (m (link_next x)) bs ≡ true)
next-mem m [] prev p x c i = cc
next-mem m (b ∷ bs) prev p x (e, real, even, new, back, rest) i = elim (Bool-cases (x == b)) [
  | inl here ↦ ground (arith, head-mem m bs b (m (link_next b)) rest)
  | inr there ↦ ground (arith, next-mem m bs b (m (link_next b)) x rest)
]

pub head-back :
    (m : Mem) (bs : List Ptr) (prev p : Ptr) → Chain m prev p bs → p ≢ null → m (link_prev p) ≡ prev
head-back m [] prev p c nn = absurd (nn c)
head-back m (b ∷ bs) prev p (e, real, even, new, back, rest) nn = rw e back

pub has-erase : (a x : Ptr) (bs : List Ptr) → has x bs ≡ false → has x (erase a bs) ≡ false
has-erase a x [] h = refl
has-erase a x (b ∷ bs) h = ground (arith, has-erase a x bs)

pub has-null : (m : Mem) (bs : List Ptr) (prev p : Ptr) → Chain m prev p bs → has null bs ≡ false
has-null m [] prev p c = refl
has-null m (b ∷ bs) prev p (e, real, even, new, back, rest) =
    ground (arith, has-null m bs b (m (link_next b)) rest)

pub has-even :
    (m : Mem) (bs : List Ptr) (prev p x : Ptr) → Chain m prev p bs → has x bs ≡ true → x % 16 ≡ 0
has-even m [] prev p x c i = cc
has-even m (b ∷ bs) prev p x (e, real, even, new, back, rest) i =
    ground (arith, has-even m bs b (m (link_next b)) x rest)
