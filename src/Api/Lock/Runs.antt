-- ===== src/Api/Lock/Runs.antt =====
-- Two threads in `ensure_init` of src/api.rs at the same time, over the state of src/api.rs and a system
-- that maps the arena at 8 MB.
use ferrum_alloc.Base.{ℕ, ◌≤◌, ◌≡◌, refl, false, true, Option, some, [], ◌∷◌, arith, ◌⊎◌}
use ferrum_alloc.Memory.{update}
use ferrum_alloc.Platform.{os_alloc}
use ferrum_alloc.Arena
use ferrum_alloc.Api.Global.{Global, init_with}
use ferrum_alloc.Api.Routes.{untouched}
use ferrum_alloc.Api.Tests.{system, globals}
use ferrum_alloc.Api.Lock.{
  initialize, spinning, locked, creating, created, made, Shared, at_pc, first_check, spin_lock,
  second_check, create, start, Reach, here, next, replay, times_made, create_globals,
}
use ferrum_alloc.Api.Lock.Safety.{Reach-serial}
use ferrum_alloc.Api.Lock.Progress.{CanStep, Reach-CanStep}

abbrev Guarded : Type 0
Guarded = ℕ × Global

abbrev make : Guarded → Option Guarded
make = create_globals (system 8388608)

abbrev d0 : Guarded
d0 = (0, untouched globals)

abbrev d1 : Guarded
d1 =
    init_with (system 8388608) (Arena.new (system 8388608) 0 globals.heap 1).0
      (Arena.new (system 8388608) 0 globals.heap 1).1 (untouched globals)

makes : make d0 ≡ some d1
unfolding create_globals Arena.new os_alloc
makes = refl

abbrev s0 : Shared Guarded
s0 = start make d0

abbrev s1 : Shared Guarded
s1 = at_pc s0 1 (spinning initialize)

abbrev s2 : Shared Guarded
s2 = at_pc s1 2 (spinning initialize)

abbrev s3 : Shared Guarded
s3 = record (at_pc s2 1 (locked initialize)) { arena_lock = true }

abbrev s4 : Shared Guarded
s4 = at_pc s3 1 creating

abbrev s5 : Shared Guarded
s5 = record (at_pc s4 1 created) { guarded = d1; log = made ∷ [] }

reach5 : Reach make d0 s5
unfolding update
reach5 =
    let r1 : Reach make d0 s1 = next 1 here (first_check refl refl) in
    let r2 : Reach make d0 s2 = next 2 r1 (first_check refl refl) in
    let r3 : Reach make d0 s3 = next 1 r2 (spin_lock initialize refl refl) in
    let r4 : Reach make d0 s4 = next 1 r3 (second_check refl refl) in
    next 1 r4 (create d1 refl makes)

Reach-serial_example :
    (s5.guarded ≡ replay make d0 s5.log)
    × (times_made s5.log ≤ 1)
    × ((s5.arena_init ≡ false) ⊎ (times_made s5.log ≡ 1))
Reach-serial_example = Reach-serial make d0 s5 reach5

Reach-CanStep_example : CanStep make s5
unfolding update
Reach-CanStep_example = Reach-CanStep make d0 s5 2 reach5 (λ e. omega arith)
