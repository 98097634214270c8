-- ===== src/Api/Lock/Freed.antt =====
-- The thread inside the spin lock of src/api.rs gives it back, by itself and soon.
use ferrum_alloc.Base.{ℕ, suc, ◌≤◌, ◌≡◌, ◌≢◌, true, false, Option}
use ferrum_alloc.Api.Lock.{Job, locked, Shared, at_pc, Step}

module _ {D : Type 0} (make : D → Option D) where
  -- A number of steps of thread `i`, and of no other.
  pub data Alone (i : ℕ) : ℕ → Shared D → Shared D → Type 0 where
    stay : (s : Shared D) → Alone i 0 s s
    go : {n : ℕ} {s t u : Shared D} → Step make s i t → Alone i n t u → Alone i (suc n) s u

  -- Thread `j` alone frees the lock in at most `bound` steps, and leaves the other threads where they
  -- stand.
  pub record Frees (s : Shared D) (j bound : ℕ) : Type 0 where
    pub steps : ℕ
    pub few : steps ≤ bound
    pub after : Shared D
    pub run : Alone j steps s after
    pub open_lock : after.arena_lock ≡ false
    pub others : (k : ℕ) → k ≢ j → after.pc k ≡ s.pc k

  -- Thread `i` gets the lock as soon as thread `holder` alone has given it back.
  pub record Enters (s : Shared D) (i : ℕ) (job : Job D) : Type 0 where
    pub holder : ℕ
    pub freed : Frees s holder 4
    pub enters :
        Step make freed.after i (record (at_pc freed.after i (locked job)) { arena_lock = true })
