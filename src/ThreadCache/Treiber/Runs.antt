-- ===== src/ThreadCache/Treiber/Runs.antt =====
-- A push and a drain of the remote-free stack of src/thread_cache.rs, step by step.
use ferrum_alloc.Base.{◌+◌, ◌≡◌, refl, List, [], ◌∷◌, arith}
use ferrum_alloc.Memory.{Ptr, Mem, update}
use ferrum_alloc.ThreadCache.Drain.{IsStack}
use ferrum_alloc.ThreadCache.Treiber.{
  idle, loaded, linked, count, Stack, set_pc, load, write_next, exchange, swap, free_head, start,
  Reach, here, next,
}
use ferrum_alloc.ThreadCache.Treiber.Safety.{Reach-accounts}

abbrev zeros : Mem
zeros = λ _. 0

-- Thread 3 pushes the block at 4096.
abbrev s0 : Stack
s0 = start zeros

abbrev s1 : Stack
s1 = set_pc s0 3 (loaded 4096 0)

abbrev s2 : Stack
s2 = record (set_pc s1 3 (linked 4096 0)) { mem = update zeros 4096 0 }

abbrev s3 : Stack
s3 = record (set_pc s2 3 idle) { remote_frees = 4096; pushed = 4096 ∷ [] }

abbrev s4 : Stack
s4 = record s3 { taken = 4096; remote_frees = 0 }

abbrev s5 : Stack
s5 = record s4 { taken = 0; freed = 4096 ∷ [] }

run3 : Reach zeros s3
unfolding update
run3 =
    let r1 : Reach zeros s1 =
      next here
        (load 3 4096 refl (λ e. omega arith) (record { drained = refl; unheld = λ j. refl })) in
    let r2 : Reach zeros s2 = next r1 (write_next 3 4096 0 refl) in
    next r2 (exchange 3 4096 0 refl refl)

run5 : Reach zeros s5
unfolding update
run5 = let r4 : Reach zeros s4 = next run3 (swap refl) in next r4 (free_head (λ e. omega arith))

Reach-accounts_example :
    (ns : List Ptr) × (ts : List Ptr) × IsStack s3.mem s3.remote_frees ns
    × IsStack s3.mem s3.taken ts
    × ((x : Ptr) → count x s3.pushed ≡ count x s3.freed + count x ns + count x ts)
Reach-accounts_example = Reach-accounts {m = zeros} {s = s3} run3
