-- ===== src/Tlsf/Pool/Coalesce.antt =====
-- What taking and freeing a block mean for the blocks of the pool: the rest of a large block is a free
-- block, and every run of free blocks becomes one block.
use ferrum_alloc.Base.{
  ℕ, ◌+◌, ◌-◌, ◌≡◌, leb, refl, ap, ◌∙◌, Bool, false, ◌&&◌, List, [], ◌∷◌, ◌++◌, arith,
  if◌then◌else◌, Bool-cases, inl, inr,
}
use ferrum_alloc.Tlsf.Mapping.{header_size, min_payload}
use ferrum_alloc.Tlsf.Pool.{Part, used_part, free_part, NoPair, head_free}

-- What is left of a free block of `size` bytes from which `n` are taken: a rest of a block's size
-- becomes a free block.
abbrev pub taken : (size n : ℕ) → List Part → List Part
taken size n vs =
    if leb (header_size + min_payload) (size - n)
    then used_part n ∷ free_part (size - n - header_size) ∷ vs
    else used_part size ∷ vs

-- A block before a list of blocks: one block with the first of them when both are free.
abbrev pub glue : Part → List Part → List Part
glue p [] = p ∷ []
glue p (q ∷ qs) =
    if p.free && q.free then free_part (p.bytes + header_size + q.bytes) ∷ qs else p ∷ q ∷ qs

abbrev pub coalesce : List Part → List Part
coalesce [] = []
coalesce (p ∷ ps) = glue p (coalesce ps)

glue-apart : (p : Part) (ps : List Part) → (p.free && head_free ps) ≡ false → glue p ps ≡ p ∷ ps
glue-apart p [] e = refl
glue-apart p (q ∷ qs) e = rw e

-- Blocks without two free neighbours stay as they are.
pub coalesce-NoPair : (q : Bool) (ps : List Part) → NoPair q ps → coalesce ps ≡ ps
coalesce-NoPair q [] h = refl
coalesce-NoPair q (p ∷ []) h = refl
coalesce-NoPair q (p ∷ r ∷ ps) (apart, rest) =
    ap (glue p) (coalesce-NoPair p.free (r ∷ ps) rest) ∙ glue-apart p (r ∷ ps) rest.0

-- Blocks in front do not matter.
pub coalesce-cong :
    (us ps qs : List Part) → coalesce ps ≡ coalesce qs → coalesce (us ++ ps) ≡ coalesce (us ++ qs)
coalesce-cong [] ps qs e = e
coalesce-cong (u ∷ us) ps qs e = ap (glue u) (coalesce-cong us ps qs e)

glue-join :
    (n k : ℕ) (ps : List Part)
    → glue (free_part n) (glue (free_part k) ps) ≡ glue (free_part (n + header_size + k)) ps
glue-join n k [] = refl
glue-join n k (q ∷ qs) = elim (Bool-cases q.free) [
  | inl frees ↦ rw frees (ap (λ (b : ℕ). free_part b ∷ qs) (ground arith))
  | inr uses ↦ rw uses
]

-- Two free neighbours are one block.
pub coalesce-join :
    (n k : ℕ) (ps : List Part)
    → coalesce (free_part n ∷ free_part k ∷ ps) ≡ coalesce (free_part (n + header_size + k) ∷ ps)
coalesce-join n k ps = glue-join n k (coalesce ps)
