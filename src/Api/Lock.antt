-- ===== src/Api/Lock.antt =====
-- The spin lock of src/api.rs and the double-checked `ensure_init`, with any number of threads: their
-- atomic steps in any order, on sequentially consistent memory. What the lock guards is a parameter
-- `D`, and so is what `ensure_init` makes of it, `none` where `Arena::new` fails.
pub mod Knows
pub mod Safety
pub mod Progress
pub mod Freed
mod Runs
use ferrum_alloc.Base.{ℕ, zero, suc, ◌≡◌, Bool, true, false, Option, none, some, List, [], ◌∷◌}
use ferrum_alloc.Memory.{update}
use ferrum_alloc.Platform.{Os}
use ferrum_alloc.Arena
use ferrum_alloc.Api.Global.{Global, init_with}

-- Why a thread takes the lock: for the second check of `ensure_init`, or to do `f` to what it guards.
pub data Job (D : Type 0) : Type 0 where
  initialize : Job D
  change : (D → D) → Job D

-- Where a thread stands: outside; in the loop of `spin_lock`; behind it; past the second check, with
-- `ARENA_INIT` found false; past the writes of the globals; with what the lock guards read; or before
-- `spin_unlock`.
pub data Pc (D : Type 0) : Type 0 where
  outside : Pc D
  spinning : Job D → Pc D
  locked : Job D → Pc D
  creating : Pc D
  created : Pc D
  working : (D → D) → D → Pc D
  leaving : Pc D

abbrev pub inside : {D : Type 0} → Pc D → Bool
inside outside = false
inside (spinning _) = false
inside (locked _) = true
inside creating = true
inside created = true
inside (working _ _) = true
inside leaving = true

-- What has been done to the data, the last first.
pub data Entry (D : Type 0) : Type 0 where
  made : Entry D
  changed : (D → D) → Entry D

pub record Shared (D : Type 0) : Type 0 where
  pub arena_lock : Bool
  pub arena_init : Bool
  pub guarded : D
  pub pc : ℕ → Pc D
  pub log : List (Entry D)

abbrev pub at_pc : {D : Type 0} → Shared D → ℕ → Pc D → Shared D
at_pc s i p = record s { pc = update s.pc i p }

module _ {D : Type 0} (make : D → Option D) where
  -- The steps of thread `i`. One that finds `ARENA_INIT` true in `ensure_init` goes on without a change of the state.
  pub data Step (s : Shared D) (i : ℕ) : Shared D → Type 0 where
    first_check :
        s.pc i ≡ outside → s.arena_init ≡ false → Step s i (at_pc s i (spinning initialize))
    start_change : (f : D → D) → s.pc i ≡ outside → Step s i (at_pc s i (spinning (change f)))
    spin_lock :
        (job : Job D)
        → s.pc i ≡ spinning job
        → s.arena_lock ≡ false
        → Step s i (record (at_pc s i (locked job)) { arena_lock = true })
    -- A round of the loop: the weak compare-exchange finds the lock taken, or fails without cause.
    spin_again : (job : Job D) → s.pc i ≡ spinning job → Step s i s
    second_check_done :
        s.pc i ≡ locked initialize → s.arena_init ≡ true → Step s i (at_pc s i leaving)
    second_check : s.pc i ≡ locked initialize → s.arena_init ≡ false → Step s i (at_pc s i creating)
    create_fails : s.pc i ≡ creating → make s.guarded ≡ none → Step s i (at_pc s i leaving)
    create :
        (d : D)
        → s.pc i ≡ creating
        → make s.guarded ≡ some d
        → Step s i (record (at_pc s i created) { guarded = d; log = made ∷ s.log })
    set_init : s.pc i ≡ created → Step s i (record (at_pc s i leaving) { arena_init = true })
    read : (f : D → D) → s.pc i ≡ locked (change f) → Step s i (at_pc s i (working f s.guarded))
    write :
        (f : D → D) (d : D)
        → s.pc i ≡ working f d
        → Step s i (record (at_pc s i leaving) { guarded = f d; log = changed f ∷ s.log })
    spin_unlock : s.pc i ≡ leaving → Step s i (record (at_pc s i outside) { arena_lock = false })

  abbrev pub start : D → Shared D
  start d = record {
    arena_lock = false;
    arena_init = false;
    guarded = d;
    pc = λ _. outside;
    log = [];
  }

  pub data Reach (d : D) : Shared D → Type 0 where
    here : Reach d (start d)
    next : {s t : Shared D} (i : ℕ) → Reach d s → Step s i t → Reach d t

  -- One thread after the other: the entries, the last first.
  abbrev pub replay : D → List (Entry D) → D
  replay d [] = d
  replay d (made ∷ es) = elim (make (replay d es)) [ none ↦ replay d es | some e ↦ e ]
  replay d (changed f ∷ es) = f (replay d es)

abbrev pub times_made : {D : Type 0} → List (Entry D) → ℕ
times_made [] = 0
times_made (made ∷ es) = suc (times_made es)
times_made (changed _ ∷ es) = times_made es

-- The body of `ensure_init` between the second check and the flag, as such a `make`.
unfoldable pub create_globals : (os : Os) → os.State × Global → Option (os.State × Global)
create_globals os (s, g) =
    let (found, s1) = Arena.new os s g.heap g.arena_ids in
    elim found [ none ↦ none | some m ↦ some (init_with os (some m) s1 g) ]
