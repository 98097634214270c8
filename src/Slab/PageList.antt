-- ===== src/Slab/PageList.antt =====
-- The doubly linked lists of partial pages of src/slab.rs: a page is pushed and removed at the front.
use ferrum_alloc.Base.{
  ℕ, ◌≡◌, ◌≢◌, refl, sym, ap, ◌∙◌, true, false, ◌&&◌, not, List, [], ◌∷◌, arith, ◌==◌,
  if◌then◌else◌,
}
use ferrum_alloc.Memory.{Ptr, null, update}
use ferrum_alloc.Page.{PageMeta, Heap}
use ferrum_alloc.Slab.{Slab, push_partial_page, remove_partial_page}
use ferrum_alloc.Slab.FreeList.{has}

-- From `head` on, behind `prev`, the distinct pages `xs` are linked in both directions.
abbrev pub IsChain : (Ptr → PageMeta) → (prev head : Ptr) → List Ptr → Type 0
IsChain m prev head [] = head ≡ null
IsChain m prev head (x ∷ xs) =
    (head ≡ x)
    × (x ≢ null)
    × (has x xs ≡ false)
    × ((m x).prev_page ≡ prev)
    × IsChain m x (m x).next_page xs

-- The links of these pages stay.
pub IsChain-frame :
    (m g : Ptr → PageMeta) (prev head : Ptr) (xs : List Ptr)
    → ((y : Ptr)
        → has y xs ≡ true
        → ((g y).next_page ≡ (m y).next_page) × ((g y).prev_page ≡ (m y).prev_page))
    → IsChain m prev head xs
    → IsChain g prev head xs
IsChain-frame m g prev head [] same c = c
IsChain-frame m g prev head (x ∷ xs) same (e, real, new, back, rest) =
    let (n, p) = same x (ground arith) in
    (
      e,
      real,
      new,
      p ∙ back,
      rw n (IsChain-frame m g x (m x).next_page xs (λ y i. same y (ground arith)) rest),
    )

-- The first page is in the list.
pub chain-first :
    (m : Ptr → PageMeta) (prev head : Ptr) (xs : List Ptr)
    → IsChain m prev head xs
    → head ≢ null
    → has head xs ≡ true
chain-first m prev head [] c real = absurd (real c)
chain-first m prev head (x ∷ xs) (e, _, _, _, _) real = ground arith

pub chain-none :
    (m : Ptr → PageMeta) (prev head : Ptr) (xs : List Ptr)
    → IsChain m prev head xs
    → head ≡ null
    → xs ≡ []
chain-none m prev head [] c e = refl
chain-none m prev head (x ∷ xs) (same, real, _, _, _) e = absurd (real (sym same ∙ e))

has-not : (x z : ℕ) (ys : List ℕ) → has x ys ≡ false → has z ys ≡ true → x ≢ z
has-not x z ys out in_list e = ground (arith, ap (λ u. has u ys) e)

-- The links after a push of `x` in front of `head`, and the rest of each entry.
module _ (s : Slab) (h : Heap) (c x : ℕ) (ne : s.partial_pages c ≢ x) where
  abbrev pushed : Ptr → PageMeta
  pushed = (push_partial_page s h c x).1.metas

  pub push-next :
      (y : Ptr)
      → (pushed y).next_page ≡ (if y == x then s.partial_pages c else (h.metas y).next_page)
  unfolding push_partial_page update
  push-next y = ground arith

  pub push-prev :
      (y : Ptr)
      → (pushed y).prev_page ≡ (
          if y == x
          then null
          else if (y == s.partial_pages c) && not (s.partial_pages c == null)
          then x
          else (h.metas y).prev_page)
  unfolding push_partial_page update
  push-prev y = ground arith

  push-rest :
      (xs : List Ptr)
      → has x xs ≡ false
      → IsChain h.metas null (s.partial_pages c) xs
      → IsChain pushed x (s.partial_pages c) xs
  push-rest [] out ch = ch
  push-rest (y ∷ ys) out (e, real, new, back, rest) = (
    e,
    real,
    new,
    ground (arith, push-prev y),
    (let same : (pushed y).next_page ≡ (h.metas y).next_page = ground (arith, push-next y) in
        rw same (
          IsChain-frame h.metas pushed y (h.metas y).next_page ys
            (λ z i.
              let z_x : z ≢ x = λ d. has-not x z ys (ground arith) i (sym d) in
              let z_y : z ≢ y = λ d. has-not y z ys new i (sym d) in
              (ground (arith, push-next z), ground (arith, push-prev z)))
            rest)),
  )

  pub push-IsChain :
      (xs : List Ptr)
      → x ≢ null
      → has x xs ≡ false
      → IsChain h.metas null (s.partial_pages c) xs
      → IsChain pushed null x (x ∷ xs)
  push-IsChain xs real out ch =
      let at : (pushed x).next_page ≡ s.partial_pages c = ground (arith, push-next x) in
      (refl, real, out, ground (arith, push-prev x), rw at (push-rest xs out ch))

-- The links after a removal of the first page, `x`.
module _ (s : Slab) (h : Heap) (c x : ℕ) (front : (h.metas x).prev_page ≡ null)
    (ne : (h.metas x).next_page ≢ x) where
  abbrev next : Ptr
  next = (h.metas x).next_page

  abbrev removed : Ptr → PageMeta
  removed = (remove_partial_page s h c x).1.metas

  pub remove-first :
      (d : ℕ)
      → (remove_partial_page s h c x).0.partial_pages d
        ≡ (if d == c then next else s.partial_pages d)
  unfolding remove_partial_page update
  remove-first d = ground arith

  pub remove-next :
      (y : Ptr) → (removed y).next_page ≡ (if y == x then null else (h.metas y).next_page)
  unfolding remove_partial_page update
  remove-next y = ground arith

  pub remove-prev :
      (y : Ptr)
      → (removed y).prev_page ≡ (
          if y == x
          then null
          else if (y == next) && not (next == null)
          then null
          else (h.metas y).prev_page)
  unfolding remove_partial_page update
  remove-prev y = ground arith

  pub remove-rest :
      (xs : List Ptr) → has x xs ≡ false → IsChain h.metas x next xs → IsChain removed null next xs
  remove-rest [] out ch = ch
  remove-rest (y ∷ ys) out (e, real, new, back, rest) = (
    e,
    real,
    new,
    ground (arith, remove-prev y),
    (let same : (removed y).next_page ≡ (h.metas y).next_page = ground (arith, remove-next y) in
        rw same (
          IsChain-frame h.metas removed y (h.metas y).next_page ys
            (λ z i.
              let z_x : z ≢ x = λ d. has-not x z ys (ground arith) i (sym d) in
              let z_y : z ≢ y = λ d. has-not y z ys new i (sym d) in
              (ground (arith, remove-next z), ground (arith, remove-prev z)))
            rest)),
  )
