-- ===== src/Api/Lock/Knows.antt =====
-- What a thread of src/api.rs knows at each point between taking the spin lock and leaving it.
use ferrum_alloc.Base.{ℕ, ◌≡◌, refl, Bool, true, false, arith}
use ferrum_alloc.Api.Lock.{
  Pc, outside, spinning, locked, creating, created, working, leaving, inside, Shared, at_pc,
  times_made,
}

-- What a thread inside the lock knows: the body of `ensure_init` has not run, it has run and the flag
-- is not set yet, or what the lock guards is what the thread has read.
abbrev pub Knows : {D : Type 0} → Shared D → Pc D → Type 0
Knows s creating = (s.arena_init ≡ false) × (times_made s.log ≡ 0)
Knows s created = (s.arena_init ≡ false) × (times_made s.log ≡ 1)
Knows s (working f d) = d ≡ s.guarded
Knows s _ = Unit {0}

-- Nobody is between the body and the flag.
abbrev pub between : {D : Type 0} → Pc D → Bool
between created = true
between _ = false

pub between-inside : {D : Type 0} (p : Pc D) → between p ≡ true → inside p ≡ true
between-inside outside h = cc
between-inside (spinning j) h = cc
between-inside (locked j) h = refl
between-inside leaving h = refl
between-inside creating h = refl
between-inside created h = refl
between-inside (working f d) h = refl

-- Between the two, the body has run.
pub between-made :
    {D : Type 0} (s : Shared D) (p : Pc D) → between p ≡ true → Knows s p → times_made s.log ≡ 1
between-made s outside h k = absurd (ground arith)
between-made s (spinning j) h k = absurd (ground arith)
between-made s (locked j) h k = absurd (ground arith)
between-made s leaving h k = absurd (ground arith)
between-made s creating h k = absurd (ground arith)
between-made s created h k = k.1
between-made s (working f d) h k = absurd (ground arith)

-- A thread knows nothing outside, and nothing of where the others stand.
pub Knows-outside : {D : Type 0} (s : Shared D) (p : Pc D) → inside p ≡ false → Knows s p
Knows-outside s outside h = tt
Knows-outside s (spinning j) h = tt
Knows-outside s (locked j) h = tt
Knows-outside s leaving h = tt
Knows-outside s creating h = absurd (ground arith)
Knows-outside s created h = absurd (ground arith)
Knows-outside s (working f d) h = absurd (ground arith)

pub Knows-at_pc :
    {D : Type 0} (s : Shared D) (i : ℕ) (q p : Pc D) → Knows s p → Knows (at_pc s i q) p
Knows-at_pc s i q outside k = tt
Knows-at_pc s i q (spinning j) k = tt
Knows-at_pc s i q (locked j) k = tt
Knows-at_pc s i q leaving k = tt
Knows-at_pc s i q creating k = k
Knows-at_pc s i q created k = k
Knows-at_pc s i q (working f d) k = k
