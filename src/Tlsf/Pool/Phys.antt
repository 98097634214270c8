-- ===== src/Tlsf/Pool/Phys.antt =====
-- The boundary tags of neighbouring blocks (src/tlsf.rs) under writes elsewhere, and taken apart at a
-- block.
use ferrum_alloc.Base.{ℕ, ◌%◌, ◌≡◌, ◌≢◌, Bool, true, false, ◌&&◌, ◌||◌, List, [], ◌∷◌, ◌++◌, arith}
use ferrum_alloc.Memory.{Ptr, Mem}
use ferrum_alloc.Tlsf.Block.{prev_phys_size, size_and_flags}
use ferrum_alloc.Tlsf.Block.Words.{HasWord}
use ferrum_alloc.Tlsf.Pool.{
  Part, after, stop, starts, heads, AllSized, NoPair, last_bytes, last_free, head_bytes, head_free,
  Front, Phys,
}
use ferrum_alloc.Tlsf.Pool.Layout.{starts-append, stop-append, heads_bounds}

-- Two memories have the same header at `x`.
abbrev pub SameHeader : Mem → Mem → Ptr → Type 0
SameHeader m g x =
    (g (prev_phys_size x) ≡ m (prev_phys_size x)) × (g (size_and_flags x) ≡ m (size_and_flags x))

pub heads-append :
    (a : Ptr) (us vs : List Part) (x : Ptr)
    → heads a (us ++ vs) x ≡ (starts a us x || heads (stop a us) vs x)
heads-append a us vs x = ground (arith, starts-append a us vs x, stop-append a us vs)

module _ (m g : Mem) where
  pub Front-frame :
      (a : Ptr) (prev : ℕ) (prev_free : Bool) (ps : List Part)
      → Front m a prev prev_free ps
      → ((x : Ptr) → starts a ps x ≡ true → SameHeader m g x)
      → Front g a prev prev_free ps
  Front-frame a prev prev_free [] f same = tt
  Front-frame a prev prev_free (p ∷ ps) (own, back, rest) same =
      let (s1, s2) = same a (ground arith) in
      (
        ground arith,
        ground arith,
        Front-frame (after a p) p.bytes p.free ps rest (λ x i. same x (ground arith)),
      )

  pub Phys-frame :
      (a : Ptr) (prev : ℕ) (prev_free : Bool) (ps : List Part)
      → Phys m a prev prev_free ps
      → ((x : Ptr) → heads a ps x ≡ true → SameHeader m g x)
      → Phys g a prev prev_free ps
  Phys-frame a prev prev_free [] (own, back) same =
      let (s1, s2) = same a (ground arith) in (ground arith, ground arith)
  Phys-frame a prev prev_free (p ∷ ps) (own, back, rest) same =
      let (s1, s2) = same a (ground arith) in
      (
        ground arith,
        ground arith,
        Phys-frame (after a p) p.bytes p.free ps rest (λ x i. same x (ground arith)),
      )

  -- The same blocks behind another one: only the first header tells the difference.
  pub Phys-relink :
      (a : Ptr) (prev prev' : ℕ) (prev_free prev_free' : Bool) (ps : List Part)
      → AllSized ps
      → a % 16 ≡ 0
      → Phys m a prev prev_free ps
      → g (prev_phys_size a) ≡ prev'
      → HasWord g a (head_bytes ps) (head_free ps) prev_free'
      → ((x : Ptr) → heads a ps x ≡ true → x ≢ a → SameHeader m g x)
      → Phys g a prev' prev_free' ps
  Phys-relink a prev prev' pf pf' [] sized even (own, back) link here same = (here, link)
  Phys-relink a prev prev' pf pf' (p ∷ ps) (low, whole, sized) even (own, back, rest) link here
        same =
      (
        here,
        link,
        Phys-frame (after a p) p.bytes p.free ps rest
            (λ x i. same x (ground arith) (ground (arith, heads_bounds (after a p) ps x sized))),
      )

module _ (m : Mem) where
  pub head-HasWord :
      (a : Ptr) (prev : ℕ) (prev_free : Bool) (ps : List Part)
      → Phys m a prev prev_free ps
      → HasWord m a (head_bytes ps) (head_free ps) prev_free
  head-HasWord a prev prev_free [] (own, back) = own
  head-HasWord a prev prev_free (p ∷ ps) (own, back, rest) = own

  pub head-prev :
      (a : Ptr) (prev : ℕ) (prev_free : Bool) (ps : List Part)
      → Phys m a prev prev_free ps
      → m (prev_phys_size a) ≡ prev
  head-prev a prev prev_free [] (own, back) = back
  head-prev a prev prev_free (p ∷ ps) (own, back, rest) = back

  pub Phys-split :
      (a : Ptr) (prev : ℕ) (prev_free : Bool) (us vs : List Part)
      → Phys m a prev prev_free (us ++ vs)
      → Front m a prev prev_free us
        × Phys m (stop a us) (last_bytes prev us) (last_free prev_free us) vs
  Phys-split a prev prev_free [] vs h = (tt, h)
  Phys-split a prev prev_free (u ∷ us) vs (own, back, rest) =
      let (f, r) = Phys-split (after a u) u.bytes u.free us vs rest in ((own, back, f), r)

  pub Phys-join :
      (a : Ptr) (prev : ℕ) (prev_free : Bool) (us vs : List Part)
      → Front m a prev prev_free us
      → Phys m (stop a us) (last_bytes prev us) (last_free prev_free us) vs
      → Phys m a prev prev_free (us ++ vs)
  Phys-join a prev prev_free [] vs f r = r
  Phys-join a prev prev_free (u ∷ us) vs (own, back, f) r =
      (own, back, Phys-join (after a u) u.bytes u.free us vs f r)

  pub Front-split :
      (a : Ptr) (prev : ℕ) (prev_free : Bool) (us vs : List Part)
      → Front m a prev prev_free (us ++ vs)
      → Front m a prev prev_free us
        × Front m (stop a us) (last_bytes prev us) (last_free prev_free us) vs
  Front-split a prev prev_free [] vs h = (tt, h)
  Front-split a prev prev_free (u ∷ us) vs (own, back, rest) =
      let (f, r) = Front-split (after a u) u.bytes u.free us vs rest in ((own, back, f), r)

pub NoPair-split :
    (prev_free : Bool) (us vs : List Part)
    → NoPair prev_free (us ++ vs)
    → NoPair prev_free us × NoPair (last_free prev_free us) vs
NoPair-split prev_free [] vs h = (tt, h)
NoPair-split prev_free (u ∷ us) vs (apart, rest) =
    let (f, r) = NoPair-split u.free us vs rest in ((apart, f), r)

pub NoPair-join :
    (prev_free : Bool) (us vs : List Part)
    → NoPair prev_free us
    → NoPair (last_free prev_free us) vs
    → NoPair prev_free (us ++ vs)
NoPair-join prev_free [] vs f r = r
NoPair-join prev_free (u ∷ us) vs (apart, f) r = (apart, NoPair-join u.free us vs f r)

-- What is free before a list matters only to its first block.
pub NoPair-behind :
    (q q' : Bool) (vs : List Part) → NoPair q vs → (q' && head_free vs) ≡ false → NoPair q' vs
NoPair-behind q q' [] h e = tt
NoPair-behind q q' (v ∷ vs) (apart, rest) e = (e, rest)
