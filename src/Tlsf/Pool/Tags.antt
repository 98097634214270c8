-- ===== src/Tlsf/Pool/Tags.antt =====
-- The boundary tags around one block (src/tlsf.rs): the blocks before it, its own header, and the
-- blocks behind it.
use ferrum_alloc.Base.{
  ℕ, ◌+◌, ◌%◌, ◌^◌, ◌≤◌, ◌<◌, ◌≡◌, ◌≢◌, refl, ◌∙◌, Bool, true, false, List, [], ◌∷◌, ◌++◌, arith,
}
use ferrum_alloc.Memory.{Ptr, null, Mem, update}
use ferrum_alloc.Tlsf.Mapping.{header_size, min_payload}
use ferrum_alloc.Tlsf.Block.{prev_phys_size, size_and_flags}
use ferrum_alloc.Tlsf.Block.Words.{HasWord, IsSize, word}
use ferrum_alloc.Tlsf.Pool.{
  Part, used_part, after, stop, starts, heads, AllSized, last_bytes, last_free, head_bytes,
  head_free, Front, Phys,
}
use ferrum_alloc.Tlsf.Pool.Layout.{starts_bounds, stop-le, stop-even, heads_bounds, AllSized-append}
use ferrum_alloc.Tlsf.Pool.Phys.{
  SameHeader, heads-append, Front-frame, Phys-frame, Phys-relink, head-prev,
}

-- Blocks `us` from `a` on, a block of `n` bytes, and blocks `vs`, within 4 MB.
pub record IsLayout (a : Ptr) (us : List Part) (n : ℕ) (vs : List Part) : Type 0 where
  pub real : a ≢ null
  pub even : a % 16 ≡ 0
  pub front : AllSized us
  pub low : min_payload ≤ n
  pub whole : n % 16 ≡ 0
  pub back : AllSized vs
  pub bound : stop (stop a us + (header_size + n)) vs + header_size ≤ a + 2 ^ 22

-- The block is free or not, and the one behind it knows or not.
pub record HasTags (m : Mem) (a : Ptr) (us : List Part) (n : ℕ) (free known : Bool) (vs : List Part)
    : Type 0 where
  pub front : Front m a 0 false us
  pub own : HasWord m (stop a us) n free (last_free false us)
  pub own_prev : m (prev_phys_size (stop a us)) ≡ last_bytes 0 us
  pub back : Phys m (stop a us + (header_size + n)) n known vs

front-IsSize :
    (a : Ptr) (vs : List Part) → AllSized vs → stop a vs ≤ a + 2 ^ 22 → IsSize (head_bytes vs)
front-IsSize a [] sized le = record { even = refl; small = omega arith }
front-IsSize a (v ∷ vs) (low, whole, sized) le = record {
  even = whole;
  small = omega (arith, stop-le (after a v) vs);
}

module _ (a : Ptr) (us : List Part) (n : ℕ) (vs : List Part) (lay : IsLayout a us n vs) where
  abbrev pub block : Ptr
  block = stop a us

  abbrev pub next : Ptr
  next = stop a us + (header_size + n)

  abbrev pub row : List Part
  row = us ++ used_part n ∷ vs

  pub row-AllSized : AllSized row
  row-AllSized = AllSized-append us (used_part n ∷ vs) lay.front (lay.low, lay.whole, lay.back)

  pub block-even : block % 16 ≡ 0
  block-even = stop-even a us lay.front lay.even

  pub next-even : next % 16 ≡ 0
  next-even = omega (arith, block-even, lay.whole)

  pub block-real : block ≢ null
  block-real e = lay.real (omega (arith, stop-le a us))

  pub small : n < 2 ^ 22
  small = omega (arith, lay.bound, stop-le next vs, stop-le a us)

  pub block-IsSize : IsSize n
  block-IsSize = record { even = lay.whole; small = omega (arith, small) }

  pub head-IsSize : IsSize (head_bytes vs)
  head-IsSize = front-IsSize next vs lay.back (omega (arith, lay.bound, stop-le a us))

  -- The headers of the row: before the block, its own, behind it.
  pub before : (x : Ptr) → starts a us x ≡ true → (x + 32 ≤ block) × (x % 16 ≡ 0)
  before x i = ground (arith, starts_bounds a us x lay.front lay.even i)

  pub behind : (x : Ptr) → heads next vs x ≡ true → (next ≤ x) × (x % 16 ≡ 0)
  behind x i = ground (arith, heads_bounds next vs x lay.back next-even i)

module _ (m g : Mem) (a : Ptr) (us : List Part) (n : ℕ) (vs : List Part) (lay : IsLayout a us n vs)
    (free known : Bool) (h : HasTags m a us n free known vs) where
  -- Writes elsewhere.
  pub HasTags-frame :
      ((x : Ptr) → heads a (us ++ used_part n ∷ vs) x ≡ true → SameHeader m g x)
      → HasTags g a us n free known vs
  HasTags-frame same = record {
    front =
        Front-frame m g a 0 false us h.front
          (λ x i. same x (ground (arith, heads-append a us (used_part n ∷ vs) x)));
    own =
        (same (stop a us) (ground (arith, heads-append a us (used_part n ∷ vs) (stop a us)))).1
        ∙ h.own;
    own_prev =
        (same (stop a us) (ground (arith, heads-append a us (used_part n ∷ vs) (stop a us)))).0
        ∙ h.own_prev;
    back =
        Phys-frame m g (stop a us + (header_size + n)) n known vs h.back
          (λ x i. same x (ground (arith, heads-append a us (used_part n ∷ vs) x)));
  }

module _ (m : Mem) (a : Ptr) (us : List Part) (n : ℕ) (vs : List Part) (lay : IsLayout a us n vs)
    (free known : Bool) (h : HasTags m a us n free known vs) where
  -- A new word for the block itself.
  pub HasTags-own :
      (free' : Bool)
      → HasTags
          (update m (size_and_flags (stop a us)) (word n free' (last_free false us)))
          a
          us
          n
          free'
          known
          vs
  unfolding update
  HasTags-own free' = record {
    front =
        Front-frame m (update m (size_and_flags (stop a us)) (word n free' (last_free false us))) a
          0 false us h.front (λ x i. ground (arith, before a us n vs lay x i));
    own = ground arith;
    own_prev = ground (arith, h.own_prev);
    back =
        Phys-frame m (update m (size_and_flags (stop a us)) (word n free' (last_free false us)))
          (stop a us + (header_size + n)) n known vs h.back
          (λ x i. ground (arith, behind a us n vs lay x i, block-even a us n vs lay));
  }

  -- A new word for the block behind it.
  pub HasTags-next :
      (known' : Bool)
      → HasTags
          (update m
            (size_and_flags (next a us n vs lay))
            (word (head_bytes vs) (head_free vs) known'))
          a
          us
          n
          free
          known'
          vs
  unfolding update
  HasTags-next known' = record {
    front =
        Front-frame m
          (update m (size_and_flags (next a us n vs lay))
            (word (head_bytes vs) (head_free vs) known'))
          a 0 false us h.front (λ x i. ground (arith, before a us n vs lay x i));
    own = ground (arith, h.own, block-even a us n vs lay, next-even a us n vs lay);
    own_prev = ground (arith, h.own_prev, block-even a us n vs lay, next-even a us n vs lay);
    back =
        Phys-relink m
          (update m (size_and_flags (next a us n vs lay))
            (word (head_bytes vs) (head_free vs) known'))
          (next a us n vs lay) n n known known' vs lay.back (next-even a us n vs lay) h.back
          (ground (arith, head-prev m (next a us n vs lay) n known vs h.back)) (ground arith)
          (λ x i ne. ground (arith, behind a us n vs lay x i, next-even a us n vs lay));
  }
