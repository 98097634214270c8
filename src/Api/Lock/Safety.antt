-- ===== src/Api/Lock/Safety.antt =====
-- The spin lock of src/api.rs keeps the threads apart, and `ensure_init` runs its body once.
use ferrum_alloc.Base.{
  ℕ, ◌≤◌, ◌≡◌, ◌≢◌, refl, sym, ap, ◌∙◌, Bool, true, false, Option, none, some, List, ◌∷◌, arith,
  ◌==◌, Bool-cases, inl, inr, ◌⊎◌,
}
use ferrum_alloc.Memory.{update}
use ferrum_alloc.Api.Lock.{
  Job, initialize, change, Pc, outside, spinning, locked, creating, created, working, leaving,
  inside, Entry, made, changed, Shared, at_pc, Step, first_check, start_change, spin_lock,
  spin_again, second_check_done, second_check, create_fails, create, set_init, read, write,
  spin_unlock, start, Reach, here, next, replay, times_made,
}
use ferrum_alloc.Api.Lock.Knows.{
  Knows, between, between-inside, between-made, Knows-outside, Knows-at_pc,
}

module _ {D : Type 0} (make : D → Option D) (d0 : D) where
  pub record Inv (s : Shared D) : Type 0 where
    alone : (i j : ℕ) → inside (s.pc i) ≡ true → inside (s.pc j) ≡ true → i ≡ j
    pub taken : (i : ℕ) → inside (s.pc i) ≡ true → s.arena_lock ≡ true
    pub owner : s.arena_lock ≡ true → (i : ℕ) × (inside (s.pc i) ≡ true)
    knows : (i : ℕ) → Knows s (s.pc i)
    once : s.arena_init ≡ true → times_made s.log ≡ 1
    unmade : s.arena_init ≡ false → (times_made s.log ≡ 0) ⊎ ((i : ℕ) × (between (s.pc i) ≡ true))
    serial : s.guarded ≡ replay make d0 s.log

  start-Inv : Inv (start make d0)
  start-Inv = record {
    alone = λ i j h g. absurd (ground arith);
    taken = λ i h. absurd (ground arith);
    owner = λ h. absurd (ground arith);
    knows = λ i. tt;
    once = λ h. absurd (ground arith);
    unmade = λ h. inl refl;
    serial = refl;
  }

  -- A step of thread `i` that stays on its side of the lock and changes nothing else.
  module _ (s : Shared D) (v : Inv s) (i : ℕ) (p : Pc D) where
    move :
        inside p ≡ inside (s.pc i)
        → between p ≡ between (s.pc i)
        → Knows (at_pc s i p) p
        → Inv (at_pc s i p)
    unfolding update
    move side same known = record {
      alone = λ j k h g. ground (arith, v.alone j k, v.alone i k, v.alone j i);
      taken = λ j h. ground (arith, v.taken j, v.taken i);
      owner = λ h. let (j, at) = v.owner h in (j, ground arith);
      knows = λ j. elim (Bool-cases (j == i)) [
        | inl e ↦ rw e known
        | inr d ↦ rw d (Knows-at_pc s i p (s.pc j) (v.knows j))
      ];
      once = v.once;
      unmade = λ h. elim (v.unmade h) [
        | inl none_made ↦ inl none_made
        | inr (j, at) ↦ inr (j, ground arith)
      ];
      serial = v.serial;
    }

  -- A step of the thread inside, which stays there.
  module _ (s : Shared D) (v : Inv s) (i : ℕ) (p : Pc D) (init : Bool) (d : D)
      (log : List (Entry D)) (was : inside (s.pc i) ≡ true) (is : inside p ≡ true) where
    abbrev t : Shared D
    t = record {
      arena_lock = s.arena_lock;
      arena_init = init;
      guarded = d;
      pc = update s.pc i p;
      log = log;
    }

    act :
        Knows t p
        → (init ≡ true → times_made log ≡ 1)
        → (init ≡ false → (times_made log ≡ 0) ⊎ (between p ≡ true))
        → d ≡ replay make d0 log
        → Inv t
    unfolding update
    act known once unmade serial = record {
      alone = λ j k h g. ground (arith, v.alone j k, v.alone i k, v.alone j i);
      taken = λ j h. v.taken i was;
      owner = λ h. (i, ground arith);
      knows = λ j. elim (Bool-cases (j == i)) [
        | inl e ↦ rw e known
        | inr ne ↦ rw ne (Knows-outside t (s.pc j) (ground (arith, v.alone j i)))
      ];
      once = once;
      unmade =
          λ h. elim (unmade h) [ inl none_made ↦ inl none_made | inr at ↦ inr (i, ground arith) ];
      serial = serial;
    }

  -- Through `spin_lock`, and through `spin_unlock`.
  enter :
      (s : Shared D) (i : ℕ) (job : Job D)
      → Inv s
      → s.pc i ≡ spinning job
      → s.arena_lock ≡ false
      → Inv (record (at_pc s i (locked job)) { arena_lock = true })
  unfolding update
  enter s i job v at free = record {
    alone = λ j k h g. ground (arith, v.taken j, v.taken k);
    taken = λ j h. refl;
    owner = λ h. (i, ground arith);
    knows = λ j. elim (Bool-cases (j == i)) [
      | inl e ↦ rw e tt
      | inr ne ↦ rw ne (
          Knows-outside (record (at_pc s i (locked job)) { arena_lock = true }) (s.pc j)
            (ground (arith, v.taken j)))
    ];
    once = v.once;
    unmade = λ h. elim (v.unmade h) [
      | inl none_made ↦ inl none_made
      | inr (j, there) ↦ inr (j, ground arith)
    ];
    serial = v.serial;
  }

  exit :
      (s : Shared D) (i : ℕ)
      → Inv s
      → s.pc i ≡ leaving
      → Inv (record (at_pc s i outside) { arena_lock = false })
  unfolding update
  exit s i v at = record {
    alone = λ j k h g. ground (arith, v.alone j i);
    taken = λ j h. ground (arith, v.alone j i);
    owner = λ h. absurd (ground arith);
    knows = λ j. elim (Bool-cases (j == i)) [
      | inl e ↦ rw e tt
      | inr ne ↦ rw ne (
          Knows-outside (record (at_pc s i outside) { arena_lock = false }) (s.pc j)
            (ground (arith, v.alone j i)))
    ];
    once = v.once;
    unmade = λ h. elim (v.unmade h) [
      | inl none_made ↦ inl none_made
      | inr (j, there) ↦ inr (j, ground arith)
    ];
    serial = v.serial;
  }

  -- While a thread is inside the lock, and not between the body of `ensure_init` and the flag, no
  -- thread is, so that an unset flag means that the body has not run.
  not_yet :
      (s : Shared D) (i : ℕ)
      → Inv s
      → inside (s.pc i) ≡ true
      → between (s.pc i) ≡ false
      → s.arena_init ≡ false
      → times_made s.log ≡ 0
  not_yet s i v at other h = elim (v.unmade h) [
    | inl none_made ↦ none_made
    | inr (j, there) ↦
        let same : j ≡ i = v.alone j i (between-inside (s.pc j) there) at in absurd (ground arith)
  ]

  Step-Inv : (s : Shared D) (i : ℕ) (t : Shared D) → Inv s → Step make s i t → Inv t
  Step-Inv s i t v (first_check at unset) =
      move s v i (spinning initialize) (ground arith) (ground arith) tt
  Step-Inv s i t v (start_change f at) =
      move s v i (spinning (change f)) (ground arith) (ground arith) tt
  Step-Inv s i t v (spin_lock job at free) = enter s i job v at free
  Step-Inv s i t v (spin_again job at) = v
  Step-Inv s i t v (second_check_done at set) = move s v i leaving (ground arith) (ground arith) tt
  Step-Inv s i t v (second_check at unset) =
      move s v i creating (ground arith) (ground arith)
        (unset, not_yet s i v (ground arith) (ground arith) unset)
  Step-Inv s i t v (create_fails at fails) = move s v i leaving (ground arith) (ground arith) tt
  Step-Inv s i t v (create d at makes) =
      let (unset, none_made) : Knows s creating = rw at at (v.knows i) in
      act s v i created s.arena_init d (made ∷ s.log) (ground arith) refl (unset, ground arith)
        (λ h. absurd (ground arith)) (λ h. inr refl)
        (ap (λ (o : Option D). elim o [ none ↦ replay make d0 s.log | some e ↦ e ])
          (sym makes ∙ ap make v.serial))
  Step-Inv s i t v (set_init at) =
      let (unset, one) : Knows s created = rw at at (v.knows i) in
      act s v i leaving true s.guarded s.log (ground arith) refl tt (λ h. one)
        (λ h. absurd (ground arith)) v.serial
  Step-Inv s i t v (read f at) = move s v i (working f s.guarded) (ground arith) (ground arith) refl
  Step-Inv s i t v (write f d at) =
      let same : d ≡ s.guarded = rw at at (v.knows i) in
      act s v i leaving s.arena_init (f d) (changed f ∷ s.log) (ground arith) refl tt v.once
        (λ h. inl (not_yet s i v (ground arith) (ground arith) h)) (ap f (same ∙ v.serial))
  Step-Inv s i t v (spin_unlock at) = exit s i v at

  pub Reach-Inv : (s : Shared D) → Reach make d0 s → Inv s
  Reach-Inv s here = start-Inv
  Reach-Inv s (next {s = u} i r step) = Step-Inv u i s (Reach-Inv u r) step

  -- In every reachable state, while one thread is inside the lock, every other one is not.
  pub Reach-exclusive :
      (s : Shared D) (i j : ℕ)
      → Reach make d0 s
      → inside (s.pc i) ≡ true
      → i ≢ j
      → inside (s.pc j) ≡ false
  Reach-exclusive s i j r in_lock ne = ground (arith, (Reach-Inv s r).alone i j)

  -- In every reachable state, what the lock guards is what the changes and the body of `ensure_init`
  -- make of it one after the other, in the order in which the threads had the lock; that body has run
  -- once when `ARENA_INIT` is set, and at most once otherwise.
  pub Reach-serial :
      (s : Shared D)
      → Reach make d0 s
      → (s.guarded ≡ replay make d0 s.log)
        × (times_made s.log ≤ 1)
        × ((s.arena_init ≡ false) ⊎ (times_made s.log ≡ 1))
  Reach-serial s r =
      let v = Reach-Inv s r in
      (
        v.serial,
        elim (Bool-cases s.arena_init) [
          | inl set ↦ omega (arith, v.once set)
          | inr unset ↦ elim (v.unmade unset) [
            | inl none_made ↦ omega arith
            | inr (j, there) ↦ omega (arith, between-made s (s.pc j) there (v.knows j))
          ]
        ],
        elim (Bool-cases s.arena_init) [ inl set ↦ inr (v.once set) | inr unset ↦ inl unset ],
      )
