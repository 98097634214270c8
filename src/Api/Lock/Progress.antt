-- ===== src/Api/Lock/Progress.antt =====
-- The threads at the spin lock of src/api.rs do not block each other.
use ferrum_alloc.Base.{
  ℕ, ◌<◌, ◌≡◌, ◌≢◌, refl, true, false, Option, none, some, ◌∷◌, arith, Bool-cases, inl, inr,
}
use ferrum_alloc.Memory.{update}
use ferrum_alloc.Api.Lock.{
  initialize, change, Pc, outside, spinning, locked, creating, created, working, leaving, inside,
  made, changed, Shared, at_pc, Step, spin_lock, second_check_done, second_check, create_fails,
  create, set_init, read, write, spin_unlock, Reach,
}
use ferrum_alloc.Api.Lock.Safety.{Inv, Reach-Inv}

-- How far a thread is from being outside, with the rounds of the loop in `spin_lock` left out.
abbrev pub rank : {D : Type 0} → Pc D → ℕ
rank outside = 0
rank (spinning _) = 5
rank (locked _) = 4
rank creating = 3
rank created = 2
rank (working _ _) = 2
rank leaving = 1

module _ {D : Type 0} (make : D → Option D) where
  -- Thread `thread` is not outside and can take a step that brings it nearer to being outside, so no
  -- further round of the loop of `spin_lock`.
  pub record CanStep (s : Shared D) : Type 0 where
    pub thread : ℕ
    pub after : Shared D
    pub step : Step make s thread after
    pub busy : rank (s.pc thread) ≢ 0
    pub nearer : rank (after.pc thread) < rank (s.pc thread)

  creating-CanStep :
      (s : Shared D) (i : ℕ) → s.pc i ≡ creating → (o : Option D) → make s.guarded ≡ o → CanStep s
  unfolding update
  creating-CanStep s i at none e = record {
    thread = i;
    after = at_pc s i leaving;
    step = create_fails at e;
    busy = λ z. ground arith;
    nearer = ground arith;
  }
  creating-CanStep s i at (some d) e = record {
    thread = i;
    after = record (at_pc s i created) { guarded = d; log = made ∷ s.log };
    step = create d at e;
    busy = λ z. ground arith;
    nearer = ground arith;
  }

  -- A thread inside can take a step.
  inside-CanStep : (s : Shared D) (i : ℕ) (p : Pc D) → s.pc i ≡ p → inside p ≡ true → CanStep s
  unfolding update
  inside-CanStep s i outside at h = absurd (ground arith)
  inside-CanStep s i (spinning job) at h = absurd (ground arith)
  inside-CanStep s i (locked initialize) at h = elim (Bool-cases s.arena_init) [
    | inl set ↦ record {
      thread = i;
      after = at_pc s i leaving;
      step = second_check_done at set;
      busy = λ z. ground arith;
      nearer = ground arith;
    }
    | inr unset ↦ record {
      thread = i;
      after = at_pc s i creating;
      step = second_check at unset;
      busy = λ z. ground arith;
      nearer = ground arith;
    }
  ]
  inside-CanStep s i (locked (change f)) at h = record {
    thread = i;
    after = at_pc s i (working f s.guarded);
    step = read f at;
    busy = λ z. ground arith;
    nearer = ground arith;
  }
  inside-CanStep s i creating at h = creating-CanStep s i at (make s.guarded) refl
  inside-CanStep s i created at h = record {
    thread = i;
    after = record (at_pc s i leaving) { arena_init = true };
    step = set_init at;
    busy = λ z. ground arith;
    nearer = ground arith;
  }
  inside-CanStep s i (working f d) at h = record {
    thread = i;
    after = record (at_pc s i leaving) { guarded = f d; log = changed f ∷ s.log };
    step = write f d at;
    busy = λ z. ground arith;
    nearer = ground arith;
  }
  inside-CanStep s i leaving at h = record {
    thread = i;
    after = record (at_pc s i outside) { arena_lock = false };
    step = spin_unlock at;
    busy = λ z. ground arith;
    nearer = ground arith;
  }

  -- A thread in the loop of `spin_lock` can leave it, or another one is inside.
  busy-CanStep :
      (s : Shared D) (d0 : D) (i : ℕ) (p : Pc D)
      → Inv make d0 s
      → s.pc i ≡ p
      → rank p ≢ 0
      → CanStep s
  unfolding update
  busy-CanStep s d0 i outside v at busy = absurd (busy refl)
  busy-CanStep s d0 i (spinning job) v at busy = elim (Bool-cases s.arena_lock) [
    | inl taken ↦ let (j, there) = v.owner taken in inside-CanStep s j (s.pc j) refl there
    | inr free ↦ record {
      thread = i;
      after = record (at_pc s i (locked job)) { arena_lock = true };
      step = spin_lock job at free;
      busy = λ z. ground arith;
      nearer = ground arith;
    }
  ]
  busy-CanStep s d0 i (locked job) v at busy = inside-CanStep s i (locked job) at refl
  busy-CanStep s d0 i creating v at busy = inside-CanStep s i creating at refl
  busy-CanStep s d0 i created v at busy = inside-CanStep s i created at refl
  busy-CanStep s d0 i (working f d) v at busy = inside-CanStep s i (working f d) at refl
  busy-CanStep s d0 i leaving v at busy = inside-CanStep s i leaving at refl

  -- In every reachable state in which a thread is not outside, a thread that is not outside can take a
  -- step that brings it nearer to being outside, so no further round of the loop of `spin_lock`: no
  -- deadlock.
  pub Reach-CanStep :
      (d0 : D) (s : Shared D) (i : ℕ) → Reach make d0 s → rank (s.pc i) ≢ 0 → CanStep s
  Reach-CanStep d0 s i r busy = busy-CanStep s d0 i (s.pc i) (Reach-Inv make d0 s r) refl busy
