-- ===== src/Tlsf/Pool/Layout.antt =====
-- The addresses of the blocks of a pool: spaced by their sizes, and with headers apart from links.
use ferrum_alloc.Base.{
  ℕ, ◌+◌, ◌%◌, ◌≤◌, ◌<◌, ◌≡◌, ◌≢◌, refl, ap, Bool, true, false, ◌||◌, List, [], ◌∷◌, ◌++◌, arith,
  if◌then◌else◌,
}
use ferrum_alloc.Memory.{Ptr}
use ferrum_alloc.Tlsf.Block.{link_prev, link_next, size_and_flags}
use ferrum_alloc.Tlsf.Pool.{
  Part, after, stop, starts, heads, free_size, AllSized, last_bytes, last_free,
}

pub stop-le : (a : Ptr) (ps : List Part) → a ≤ stop a ps
stop-le a [] = omega arith
stop-le a (p ∷ ps) = omega (arith, stop-le (after a p) ps)

pub starts_bounds :
    (a : Ptr) (ps : List Part) (x : Ptr)
    → AllSized ps
    → a % 16 ≡ 0
    → starts a ps x ≡ true
    → (a ≤ x) × (x + 32 ≤ stop a ps) × (x % 16 ≡ 0)
starts_bounds a [] x sized even i = cc
starts_bounds a (p ∷ ps) x (low, whole, sized) even i =
    ground (arith, stop-le (after a p) ps, starts_bounds (after a p) ps x sized)

pub stop-even : (a : Ptr) (ps : List Part) → AllSized ps → a % 16 ≡ 0 → stop a ps % 16 ≡ 0
stop-even a [] sized even = even
stop-even a (p ∷ ps) (low, whole, sized) even = stop-even (after a p) ps sized (omega arith)

pub heads_bounds :
    (a : Ptr) (ps : List Part) (x : Ptr)
    → AllSized ps
    → a % 16 ≡ 0
    → heads a ps x ≡ true
    → (a ≤ x) × (x ≤ stop a ps) × (x % 16 ≡ 0)
heads_bounds a ps x sized even i =
    ground (arith, starts_bounds a ps x sized even, stop-le a ps, stop-even a ps sized even)

-- A header lies behind the payload of every block before it.
pub spaced :
    (a : Ptr) (ps : List Part) (x y : Ptr)
    → AllSized ps
    → a % 16 ≡ 0
    → starts a ps y ≡ true
    → heads a ps x ≡ true
    → y < x
    → y + 32 ≤ x
spaced a [] x y sized even i j lt = cc
spaced a (p ∷ ps) x y (low, whole, sized) even i j lt = ground (
  arith,
  heads_bounds (after a p) ps x sized,
  starts_bounds (after a p) ps y sized,
  spaced (after a p) ps x y sized,
)

-- No word of a header is a link of a block.
pub header-apart :
    (a : Ptr) (ps : List Part) (x y : Ptr)
    → AllSized ps
    → a % 16 ≡ 0
    → starts a ps y ≡ true
    → heads a ps x ≡ true
    → (x ≢ link_prev y)
      × (x ≢ link_next y)
      × (size_and_flags x ≢ link_prev y)
      × (size_and_flags x ≢ link_next y)
header-apart a ps x y sized even i j =
    let (low, high, ex) = heads_bounds a ps x sized even j in
    let (low', high', ey) = starts_bounds a ps y sized even i in
    let far : x ≢ y + 16 = λ e. omega (arith, spaced a ps x y sized even i j (omega arith)) in
    (λ e. far e, λ e. omega arith, λ e. omega arith, λ e. far (omega arith))

pub starts_of_free :
    (a : Ptr) (ps : List Part) (x : Ptr) → free_size a ps x ≢ 0 → starts a ps x ≡ true
starts_of_free a [] x real = absurd (real refl)
starts_of_free a (p ∷ ps) x real = ground (arith, starts_of_free (after a p) ps x)

pub free_size-out :
    (a : Ptr) (ps : List Part) (x : Ptr) → starts a ps x ≡ false → free_size a ps x ≡ 0
free_size-out a [] x out = refl
free_size-out a (p ∷ ps) x out = ground (arith, free_size-out (after a p) ps x)

-- Two lists, one behind the other.
pub stop-append : (a : Ptr) (us vs : List Part) → stop a (us ++ vs) ≡ stop (stop a us) vs
stop-append a [] vs = refl
stop-append a (u ∷ us) vs = stop-append (after a u) us vs

pub starts-append :
    (a : Ptr) (us vs : List Part) (x : Ptr)
    → starts a (us ++ vs) x ≡ (starts a us x || starts (stop a us) vs x)
starts-append a [] vs x = refl
starts-append a (u ∷ us) vs x = ground (arith, starts-append (after a u) us vs x)

pub free_size-append :
    (a : Ptr) (us vs : List Part) (x : Ptr)
    → free_size a (us ++ vs) x
      ≡ (if starts a us x then free_size a us x else free_size (stop a us) vs x)
free_size-append a [] vs x = refl
free_size-append a (u ∷ us) vs x = ground (arith, free_size-append (after a u) us vs x)

pub AllSized-append : (us vs : List Part) → AllSized us → AllSized vs → AllSized (us ++ vs)
AllSized-append [] vs s r = r
AllSized-append (u ∷ us) vs (low, whole, s) r = (low, whole, AllSized-append us vs s r)

pub AllSized-split : (us vs : List Part) → AllSized (us ++ vs) → AllSized us × AllSized vs
AllSized-split [] vs s = (tt, s)
AllSized-split (u ∷ us) vs (low, whole, s) =
    let (r, q) = AllSized-split us vs s in ((low, whole, r), q)

pub last_bytes-append :
    (prev : ℕ) (us vs : List Part) → last_bytes prev (us ++ vs) ≡ last_bytes (last_bytes prev us) vs
last_bytes-append prev [] vs = refl
last_bytes-append prev (u ∷ us) vs = last_bytes-append u.bytes us vs

pub last_free-append :
    (prev : Bool) (us vs : List Part) → last_free prev (us ++ vs) ≡ last_free (last_free prev us) vs
last_free-append prev [] vs = refl
last_free-append prev (u ∷ us) vs = last_free-append u.free us vs

pub row_assoc : (us : List Part) (p : Part) (qs : List Part) → (us ++ p ∷ []) ++ qs ≡ us ++ p ∷ qs
row_assoc [] p qs = refl
row_assoc (u ∷ us) p qs = ap (λ ps. u ∷ ps) (row_assoc us p qs)
