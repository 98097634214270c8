-- ===== src/ThreadCache/Treiber.antt =====
-- The remote-free stack of src/thread_cache.rs with any number of threads: the atomic steps of
-- `remote_free_push` and of the owner's `drain_remote_frees`, in any order, on sequentially
-- consistent memory. `pushed` and `freed` record the finished pushes and the blocks drained.
pub mod Safety
mod Runs
use ferrum_alloc.Base.{ℕ, zero, suc, ◌≡◌, ◌≢◌, Bool, false, List, [], ◌∷◌, ◌==◌, if◌then◌else◌}
use ferrum_alloc.Memory.{Ptr, null, Mem, update}

-- Where a thread stands in `remote_free_push`: outside, with the head loaded into `head`, or with
-- the link of its node written and the exchange next.
pub data Pc : Type 0 where
  idle : Pc
  loaded : (node head : Ptr) → Pc
  linked : (node head : Ptr) → Pc

abbrev pub holds : Pc → Ptr → Bool
holds idle x = false
holds (loaded node _) x = x == node
holds (linked node _) x = x == node

abbrev pub count : Ptr → List Ptr → ℕ
count a [] = 0
count a (b ∷ bs) = if a == b then suc (count a bs) else count a bs

-- `taken` is the `head` of the owner's loop: what the swap took and the loop has not yet freed.
pub record Stack : Type 0 where
  pub remote_frees : Ptr
  pub taken : Ptr
  pub mem : Mem
  pub pc : ℕ → Pc
  pub pushed : List Ptr
  pub freed : List Ptr

-- A block that is live in the program: each push of it has been drained, and no thread is pushing it.
pub record IsLive (s : Stack) (x : Ptr) : Type 0 where
  pub drained : count x s.pushed ≡ count x s.freed
  pub unheld : (j : ℕ) → holds (s.pc j) x ≡ false

abbrev pub set_pc : Stack → ℕ → Pc → Stack
set_pc s i p = record s { pc = update s.pc i p }

pub data Step (s : Stack) : Stack → Type 0 where
  load :
      (i : ℕ) (node : Ptr)
      → s.pc i ≡ idle
      → node ≢ null
      → IsLive s node
      → Step s (set_pc s i (loaded node s.remote_frees))
  write_next :
      (i : ℕ) (node head : Ptr)
      → s.pc i ≡ loaded node head
      → Step s (record (set_pc s i (linked node head)) { mem = update s.mem node head })
  exchange :
      (i : ℕ) (node head : Ptr)
      → s.pc i ≡ linked node head
      → s.remote_frees ≡ head
      → Step s (record (set_pc s i idle) { remote_frees = node; pushed = node ∷ s.pushed })
  retry :
      (i : ℕ) (node head : Ptr)
      → s.pc i ≡ linked node head
      → Step s (set_pc s i (loaded node s.remote_frees))
  swap : s.taken ≡ null → Step s (record s { taken = s.remote_frees; remote_frees = null })
  free_head :
      s.taken ≢ null → Step s (record s { taken = s.mem s.taken; freed = s.taken ∷ s.freed })
  reuse : (x v : Ptr) → IsLive s x → Step s (record s { mem = update s.mem x v })

abbrev pub start : Mem → Stack
start m = record {
  remote_frees = null;
  taken = null;
  mem = m;
  pc = λ _. idle;
  pushed = [];
  freed = [];
}

pub data Reach (m : Mem) : Stack → Type 0 where
  here : Reach m (start m)
  next : {s t : Stack} → Reach m s → Step s t → Reach m t
