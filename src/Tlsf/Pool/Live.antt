-- ===== src/Tlsf/Pool/Live.antt =====
-- The used blocks of the pool: apart from each other, and what taking and coalescing do to them.
use ferrum_alloc.Base.{
  ℕ, ◌+◌, ◌-◌, ◌%◌, ◌≤◌, ◌<◌, ◌≡◌, ◌≢◌, refl, ◌∙◌, ap, true, false, ◌&&◌, List, [], ◌∷◌, ◌++◌,
  arith, if◌then◌else◌, leb, ◌==◌, Bool-cases, inl, inr,
}
use ferrum_alloc.Memory.{Ptr}
use ferrum_alloc.Tlsf.Mapping.{header_size, min_payload}
use ferrum_alloc.Tlsf.Pool.{
  Part, used_part, free_part, after, stop, starts, heads, free_size, AllSized,
}
use ferrum_alloc.Tlsf.Pool.Layout.{stop-append, starts_bounds, heads_bounds}
use ferrum_alloc.Tlsf.Pool.Coalesce.{taken}
use ferrum_alloc.Tlsf.Pool.Coalesce.{glue, coalesce}

-- The size of the used block at `x`, and 0 where there is none.
abbrev pub used_size : Ptr → List Part → Ptr → ℕ
used_size a [] x = 0
used_size a (p ∷ ps) x =
    if x == a then (if p.free then 0 else p.bytes) else used_size (after a p) ps x

pub used_size-ge : (a : Ptr) (ps : List Part) (x : Ptr) → used_size a ps x ≢ 0 → a ≤ x
used_size-ge a [] x real = absurd (real refl)
used_size-ge a (p ∷ ps) x real = ground (arith, used_size-ge (after a p) ps x)

pub starts_of_used :
    (a : Ptr) (ps : List Part) (x : Ptr) → used_size a ps x ≢ 0 → starts a ps x ≡ true
starts_of_used a [] x real = absurd (real refl)
starts_of_used a (p ∷ ps) x real = ground (arith, starts_of_used (after a p) ps x)

pub used-none : (a : Ptr) (ps : List Part) (x : Ptr) → used_size a ps x ≢ 0 → free_size a ps x ≡ 0
used-none a [] x real = refl
used-none a (p ∷ ps) x real = ground (arith, used-none (after a p) ps x)

-- A used block ends before the next header.
pub used_spaced :
    (a : Ptr) (ps : List Part) (x y : Ptr)
    → AllSized ps
    → a % 16 ≡ 0
    → used_size a ps x ≢ 0
    → heads a ps y ≡ true
    → x < y
    → x + header_size + used_size a ps x ≤ y
used_spaced a [] x y sized even real i lt = absurd (real refl)
used_spaced a (p ∷ ps) x y (low, whole, sized) even real i lt = ground (
  arith,
  heads_bounds (after a p) ps y sized,
  used_size-ge (after a p) ps x,
  used_spaced (after a p) ps x y sized,
)

-- The used block at `x` among the blocks.
pub record IsUsedAt (a : Ptr) (ps : List Part) (x : Ptr) : Type 0 where
  pub before : List Part
  pub behind : List Part
  pub same : ps ≡ before ++ used_part (used_size a ps x) ∷ behind
  pub at : stop a before ≡ x

pub used_block : (a : Ptr) (ps : List Part) (x : Ptr) → used_size a ps x ≢ 0 → IsUsedAt a ps x
used_block a [] x real = absurd (real refl)
used_block a (p ∷ ps) x real = elim (Bool-cases (x == a)) [
  | inl here ↦ elim (Bool-cases p.free) [
    | inl frees ↦ absurd (ground arith)
    | inr uses ↦ record { before = []; behind = ps; same = rw (here, uses); at = ground arith }
  ]
  | inr there ↦
      let rest = used_block (after a p) ps x (ground arith) in
      record {
        before = p ∷ rest.before;
        behind = rest.behind;
        same = rw there (ap (λ qs. p ∷ qs) rest.same);
        at = rest.at;
      }
]

-- Coalescing keeps the used blocks and the end of the pool.
glue-used_size :
    (a : Ptr) (p : Part) (ps : List Part) (x : Ptr)
    → used_size a (glue p ps) x ≡ used_size a (p ∷ ps) x
glue-used_size a p [] x = refl
glue-used_size a p (q ∷ qs) x =
    let e : a + (16 + (p.bytes + 16 + q.bytes)) ≡ after (after a p) q = omega arith in
    elim (Bool-cases (p.free && q.free)) [
      | inl both ↦ rw (both, e) (ground (arith, used_size-ge (after (after a p) q) qs x))
      | inr apart ↦ rw apart
    ]

pub coalesce-used_size :
    (a : Ptr) (ps : List Part) (x : Ptr) → used_size a (coalesce ps) x ≡ used_size a ps x
coalesce-used_size a [] x = refl
coalesce-used_size a (p ∷ ps) x =
    glue-used_size a p (coalesce ps) x ∙ ground (arith, coalesce-used_size (after a p) ps x)

glue-stop : (a : Ptr) (p : Part) (ps : List Part) → stop a (glue p ps) ≡ stop a (p ∷ ps)
glue-stop a p [] = refl
glue-stop a p (q ∷ qs) = elim (Bool-cases (p.free && q.free)) [
  | inl both ↦ rw both (ap (λ b. stop b qs) (omega arith))
  | inr apart ↦ rw apart
]

pub coalesce-stop : (a : Ptr) (ps : List Part) → stop a (coalesce ps) ≡ stop a ps
coalesce-stop a [] = refl
coalesce-stop a (p ∷ ps) = glue-stop a p (coalesce ps) ∙ coalesce-stop (after a p) ps

-- One block differs.
pub used_size-append :
    (a : Ptr) (us vs : List Part) (x : Ptr)
    → used_size a (us ++ vs) x
      ≡ (if starts a us x then used_size a us x else used_size (stop a us) vs x)
used_size-append a [] vs x = refl
used_size-append a (u ∷ us) vs x = ground (arith, used_size-append (after a u) us vs x)

module _ (a : Ptr) (us : List Part) (k : ℕ) (vs : List Part) (sized : AllSized us)
    (even : a % 16 ≡ 0) where
  own_out : starts a us (stop a us) ≡ false
  own_out = ground (arith, starts_bounds a us (stop a us) sized even)

  pub taken-used_size :
      (n : ℕ)
      → min_payload ≤ n
      → n ≤ k
      → (x : Ptr)
      → used_size a (us ++ taken k n vs) x ≡ (
          if x == stop a us
          then (if leb 32 (k - n) then n else k)
          else used_size a (us ++ free_part k ∷ vs) x)
  taken-used_size n low fits x =
      let b : Ptr = stop a us in
      let r : ℕ = k - n - header_size in
      elim (Bool-cases (leb 32 (k - n))) [
        | inl cuts ↦
            let e : after (after b (used_part n)) (free_part r) ≡ after b (free_part k) =
              ground arith in
            rw
              (
                cuts,
                used_size-append a us (used_part n ∷ free_part r ∷ vs) x,
                used_size-append a us (free_part k ∷ vs) x,
                e,
              )
              (ground (arith, own_out, used_size-ge (after b (free_part k)) vs x))
        | inr keeps ↦
            rw
              (
                keeps,
                used_size-append a us (used_part k ∷ vs) x,
                used_size-append a us (free_part k ∷ vs) x,
              )
              (ground (arith, own_out))
      ]

  pub taken-stop : (n : ℕ) → n ≤ k → stop a (us ++ taken k n vs) ≡ stop a (us ++ free_part k ∷ vs)
  taken-stop n fits =
      let b : Ptr = stop a us in
      let r : ℕ = k - n - header_size in
      elim (Bool-cases (leb 32 (k - n))) [
        | inl cuts ↦
            let e : after (after b (used_part n)) (free_part r) ≡ after b (free_part k) =
              ground arith in
            rw
              (
                cuts,
                stop-append a us (used_part n ∷ free_part r ∷ vs),
                stop-append a us (free_part k ∷ vs),
              )
              (ap (λ x. stop x vs) e)
        | inr keeps ↦
            rw (keeps, stop-append a us (used_part k ∷ vs), stop-append a us (free_part k ∷ vs))
      ]

  pub freed-used_size :
      (x : Ptr)
      → used_size a (us ++ free_part k ∷ vs) x
        ≡ (if x == stop a us then 0 else used_size a (us ++ used_part k ∷ vs) x)
  freed-used_size x =
      rw (used_size-append a us (used_part k ∷ vs) x, used_size-append a us (free_part k ∷ vs) x)
        (ground (arith, own_out))
