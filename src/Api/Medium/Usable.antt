-- ===== src/Api/Medium/Usable.antt =====
-- `ferrum_usable_size` of what a program holds from src/api.rs above the slab sizes and below the huge
-- ones.
use ferrum_alloc.Base.{
  ℕ, ◌≤◌, ◌≡◌, ◌≢◌, ◌∙◌, sym, subst, true, some, if◌then◌else◌, arith, ltb, Bool-cases, inl, inr,
}
use ferrum_alloc.Memory.{Ptr}
use ferrum_alloc.Platform.{Os}
use ferrum_alloc.Arena.{Arena}
use ferrum_alloc.Tlsf.Allocator
use ferrum_alloc.Tlsf.Allocator.{Tlsf}
use ferrum_alloc.Tlsf.Pool.Served.{served-usable}
use ferrum_alloc.Api.Global.{Global, tlsf_pool_size}
use ferrum_alloc.Api.Free.{ferrum_usable_size, in_tlsf}
use ferrum_alloc.Api.Medium.{serving, tlsf_of, usable_size-large}
use ferrum_alloc.Api.Medium.Blocks.{IsHeap, heap-IsLarge, in_pool, outside-contains}
use ferrum_alloc.Api.Medium.Calls.{IsReady}

-- The size that `ferrum_usable_size` gives for a block of the pool, or for one behind it in the arena.
abbrev pub usable : Global → Ptr → ℕ
usable g p = if in_tlsf g p then Allocator.usable_size g.heap.mem p else 0

-- What it gives of a block that is held.
abbrev pub IsSized : (os : Os) → os.State → Global → (held : Ptr → ℕ) → Ptr → Type 0
IsSized os s g held p =
    (ferrum_usable_size os s g p ≡ some (usable g p, s, g))
    × (in_tlsf g p ≡ true → held p ≤ Allocator.usable_size g.heap.mem p)

module _ (os : Os) (s : os.State) where
  serving-usable :
      (g : Global) (a : Arena) (t : Tlsf) (held : Ptr → ℕ)
      → IsHeap g.heap a t held
      → (p : Ptr) → held p ≢ 0
      → IsSized os s (serving g a t) held p
  unfolding in_tlsf
  serving-usable g a t held v p has_p = (
    usable_size-large os s g a t p (heap-IsLarge g.heap a t held v p has_p),
    λ own. elim (Bool-cases (ltb p t.pool_end)) [
      | inl low ↦
          let there : in_pool t held p ≡ held p = ground arith in
          rw there at (
            served-usable t.pool_start tlsf_pool_size (tlsf_of g.heap t) (in_pool t held) v.served p
              (λ e. has_p (sym there ∙ e)))
      | inr high ↦ absurd (ground (arith, outside-contains t p))
    ],
  )

  pub ready-usable :
      (g : Global) (held : Ptr → ℕ) (p : Ptr) → IsReady g held → held p ≢ 0 → IsSized os s g held p
  ready-usable g held p r has_p =
      subst (λ (x : Global). IsSized os s x held p) (sym r.state)
        (serving-usable g r.arena r.tlsf held r.heap p has_p)
