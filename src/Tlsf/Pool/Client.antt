-- ===== src/Tlsf/Pool/Client.antt =====
-- What a client of src/tlsf.rs can rely on in every state that it reaches.
use ferrum_alloc.Base.{
  ℕ, ◌+◌, ◌-◌, ◌*◌, ◌/◌, ◌%◌, ◌^◌, ◌≤◌, ◌<◌, ◌≡◌, ◌≢◌, ap, [], ◌∷◌, arith, inl, inr,
}
use ferrum_alloc.Memory.{Ptr, null}
use ferrum_alloc.Tlsf.Mapping.{header_size, min_payload}
use ferrum_alloc.Tlsf.Allocator.{Tlsf, alloc, free, usable_size}
use ferrum_alloc.Tlsf.Pool.{free_part}
use ferrum_alloc.Tlsf.Pool.State.{IsPool}
use ferrum_alloc.Tlsf.Pool.Alloc.{alloc-IsTaken, adjusted, alloc-served}
use ferrum_alloc.Tlsf.Pool.Owned.{Owned}
use ferrum_alloc.Tlsf.Pool.Start.{pool_payload}
use ferrum_alloc.Tlsf.Pool.Served.{
  served-apart, served-inside, served-nothing_held, served-free_kept, served-usable,
}
use ferrum_alloc.Tlsf.Pool.Run.{IsRun, IsServed, run-IsServed}

module _ (base pool_size : ℕ) (t : Tlsf) (held : Ptr → ℕ) (real : base ≢ null)
    (even : base % 16 ≡ 0) (low : 2 * header_size + min_payload ≤ pool_size)
    (high : pool_size ≤ 2 ^ 22) (run : IsRun base pool_size t held) where
  s : IsServed base pool_size t held
  s = run-IsServed base pool_size t held real even low high run

  -- In every state that a client reaches on a pool of 48 bytes to 4 MB at an aligned address that
  -- is not null, what it holds at two addresses does not overlap, and leaves room for a header
  -- between.
  pub held-apart : (p q : Ptr) → held p ≢ 0 → held q ≢ 0 → p < q → p + held p + header_size ≤ q
  held-apart = served-apart base pool_size t held s

  -- In every state that a client reaches on a pool of 48 bytes to 4 MB at an aligned address that
  -- is not null, what the client holds lies inside the pool, between two headers, at a 16-byte
  -- aligned address.
  pub held-inside :
      (p : Ptr)
      → held p ≢ 0
      → (base + header_size ≤ p) × (p + held p + header_size ≤ base + pool_size) × (p % 16 ≡ 0)
  held-inside = served-inside base pool_size t held s low

  -- In every state that a client reaches on a pool of 48 bytes to 4 MB at an aligned address that
  -- is not null, `usable_size` of what the client holds is at least what it asked for.
  pub held-usable : (p : Ptr) → held p ≢ 0 → held p ≤ usable_size t.mem p
  held-usable = served-usable base pool_size t held s

  -- In every state that a client reaches on a pool of 48 bytes to 4 MB at an aligned address that
  -- is not null, if it holds nothing, the pool is again the one free block that `add_pool` made of
  -- it: nothing leaks, and nothing stays in pieces.
  pub nothing_held :
      ((p : Ptr) → held p ≡ 0) → IsPool t base (free_part (pool_payload pool_size) ∷ [])
  nothing_held = served-nothing_held base pool_size t held s

  -- In every state that a client reaches on a pool of 48 bytes to 4 MB at an aligned address that
  -- is not null, if it holds nothing, `alloc` serves each request below 2^59 whose adjusted size
  -- the block of the pool exceeds by a sixteenth.
  pub served_again :
      (n : ℕ)
      → n ≢ 0
      → n < 2 ^ 59
      → adjusted n + adjusted n / 16 ≤ pool_payload pool_size
      → ((p : Ptr) → held p ≡ 0)
      → (alloc t n).0 ≢ null
  served_again n some_bytes below fits none e =
      let w =
        alloc-served t base (free_part (pool_payload pool_size) ∷ []) (nothing_held none) n base
          some_bytes below (ground arith) in
      omega (arith, w.address)

  -- A word of what the client holds.
  held-Owned :
      (p x : Ptr) → held p ≢ 0 → p ≤ x → x < p + held p → Owned base s.blocks (p - header_size) x
  held-Owned p x has_p low' high' =
      let (room, fits) = s.granted p has_p in
      record { used = λ e. has_p (omega arith); low = omega arith; high = omega arith }

  -- In every state that a client reaches on a pool of 48 bytes to 4 MB at an aligned address that
  -- is not null, `alloc` of a size other than 0 and below 2^59 changes no word of what the client
  -- holds.
  pub alloc-held :
      (p x n : ℕ)
      → held p ≢ 0
      → p ≤ x
      → x < p + held p
      → n ≢ 0
      → n < 2 ^ 59
      → (alloc t n).1.mem x ≡ t.mem x
  alloc-held p x n has_p low' high' some_bytes below =
      elim (alloc-IsTaken t base s.blocks s.pool n some_bytes below) [
        | inl w ↦ w.kept (p - header_size) x (held-Owned p x has_p low' high')
        | inr (same, no_fit) ↦ ap (λ (r : Ptr × Tlsf). r.1.mem x) same
      ]

  -- In every state that a client reaches on a pool of 48 bytes to 4 MB at an aligned address that
  -- is not null, `free` of something that the client holds changes no word of anything else that it
  -- holds.
  pub free-held :
      (p x q : Ptr)
      → held p ≢ 0
      → p ≤ x
      → x < p + held p
      → held q ≢ 0
      → q ≢ p
      → (free t q).mem x ≡ t.mem x
  free-held p x q has_p low' high' has_q ne =
      served-free_kept base pool_size t held s q has_q (p - header_size) x
        (λ e. ne (omega (arith, s.granted p has_p))) (held-Owned p x has_p low' high')
