-- ===== src/ThreadCache/Treiber/Safety.antt =====
-- No push of the remote-free stack (src/thread_cache.rs) is lost and no block is drained twice,
-- whatever the order of the steps.
use ferrum_alloc.Base.{
  ℕ, ◌+◌, ◌≡◌, ◌≢◌, refl, sym, ◌∙◌, subst, Bool-cases, inl, inr, true, false, List, [], ◌∷◌, arith,
  ◌==◌,
}
use ferrum_alloc.Memory.{Ptr, null, Mem, update}
use ferrum_alloc.ThreadCache.Drain.{has, IsStack, IsStack-frame}
use ferrum_alloc.ThreadCache.Treiber.{
  Pc, idle, loaded, linked, holds, count, Stack, Step, load, write_next, exchange, retry, swap,
  free_head, reuse, Reach, here, next,
}

-- `linked` means that the node's link has been written.
abbrev IsWritten : Mem → Pc → Type 0
IsWritten m (linked node head) = m node ≡ head
IsWritten m _ = Unit {0}

-- `ns` are the nodes of the stack, `ts` those that the owner has taken.
record Inv (s : Stack) (ns ts : List Ptr) : Type 0 where
  stack : IsStack s.mem s.remote_frees ns
  taken : IsStack s.mem s.taken ts
  balance : (x : Ptr) → count x s.pushed ≡ count x s.freed + count x ns + count x ts
  off_stack :
      (i : ℕ) (x : Ptr) → holds (s.pc i) x ≡ true → (x ≢ null) × (count x ns ≡ 0) × (count x ts ≡ 0)
  alone : (i j : ℕ) (x : Ptr) → holds (s.pc i) x ≡ true → holds (s.pc j) x ≡ true → i ≡ j
  written : (i : ℕ) → IsWritten s.mem (s.pc i)

has-count : (x : Ptr) (ns : List Ptr) → count x ns ≡ 0 → has x ns ≡ false
has-count x [] h = refl
has-count x (n ∷ ns) h = ground (arith, has-count x ns)

count-has : (x : Ptr) (ns : List Ptr) → has x ns ≡ false → count x ns ≡ 0
count-has x [] h = refl
count-has x (n ∷ ns) h = ground (arith, count-has x ns)

-- A write to a node that is in neither list.
IsStack-write :
    (m : Mem) (ns : List Ptr) (top x v : Ptr)
    → count x ns ≡ 0
    → IsStack m top ns
    → IsStack (update m x v) top ns
unfolding update
IsStack-write m ns top x v out st =
    IsStack-frame m _ ns top st λ y i. ground (arith, has-count x ns out)

-- A write to a node that the thread does not hold.
IsWritten-update :
    (m : Mem) (p : Pc) (x v : Ptr) → holds p x ≡ false → IsWritten m p → IsWritten (update m x v) p
unfolding update
IsWritten-update m idle x v h w = tt
IsWritten-update m (loaded n t) x v h w = tt
IsWritten-update m (linked n t) x v h w = ground arith

count-taken_null :
    (m : Mem) (top : Ptr) (ts : List Ptr) (x : Ptr) → IsStack m top ts → top ≡ null → count x ts ≡ 0
count-taken_null m top [] x st e = refl
count-taken_null m top (t ∷ ts) x (same, real, new, rest) e = absurd (real (sym same ∙ e))

-- A stack that is not empty, taken apart.
data Popped (m : Mem) (top : Ptr) : List Ptr → Type 0 where
  popped : (ts : List Ptr) → has top ts ≡ false → IsStack m (m top) ts → Popped m top (top ∷ ts)

pop : (m : Mem) (top : Ptr) (ts : List Ptr) → IsStack m top ts → top ≢ null → Popped m top ts
pop m top [] st real = absurd (real st)
pop m top (t ∷ ts) (same, _, new, rest) real =
    subst (λ u. Popped m u (t ∷ ts)) (sym same) (popped ts new rest)

-- A step leaves nodes that account for every push.
abbrev Kept : Stack → Type 0
Kept s = (ns : List Ptr) × (ts : List Ptr) × Inv s ns ts

freed-Kept :
    {s : Stack} {ns : List Ptr} (ts : List Ptr)
    → Inv s ns ts
    → Popped s.mem s.taken ts
    → Kept (record s { taken = s.mem s.taken; freed = s.taken ∷ s.freed })
freed-Kept {s} {ns} _ v (popped ts new rest) = (
  ns,
  ts,
  record {
    stack = v.stack;
    taken = rest;
    balance = λ x. ground (arith, v.balance x);
    off_stack = λ j x h. ground (arith, v.off_stack j x);
    alone = v.alone;
    written = v.written;
  },
)

module _ {s : Stack} {ns ts : List Ptr} (v : Inv s ns ts) where
  Step-Kept : {t : Stack} → Step s t → Kept t
  unfolding update
  Step-Kept (load i node at real live) = (
    ns,
    ts,
    record {
      stack = v.stack;
      taken = v.taken;
      balance = v.balance;
      off_stack = λ j x h. ground (arith, v.off_stack j x, v.balance x, live.drained);
      alone = λ j k x h g. ground (arith, v.alone j k x, live.unheld j, live.unheld k);
      written = λ j. ground (arith, v.written j);
    },
  )
  Step-Kept (write_next i node head at) =
      let (real, out, gone) = v.off_stack i node (ground arith) in
      (
        ns,
        ts,
        record {
          stack = IsStack-write s.mem ns s.remote_frees node head out v.stack;
          taken = IsStack-write s.mem ts s.taken node head gone v.taken;
          balance = v.balance;
          off_stack = λ j x h. ground (arith, v.off_stack j x, v.off_stack i x);
          alone = λ j k x h g. ground (arith, v.alone j k x, v.alone i k x, v.alone j i x);
          written = λ j. elim (Bool-cases (j == i)) [
            | inl e ↦ rw e (ground arith)
            | inr d ↦ rw d (
                IsWritten-update s.mem (s.pc j) node head (ground (arith, v.alone j i node))
                  (v.written j))
          ];
        },
      )
  Step-Kept (exchange i node head at same) =
      let (real, out, gone) = v.off_stack i node (ground arith) in
      (
        node ∷ ns,
        ts,
        record {
          stack = (
            refl,
            real,
            has-count node ns out,
            rw (subst (λ p. IsWritten s.mem p) at (v.written i) ∙ sym same) v.stack,
          );
          taken = v.taken;
          balance = λ x. ground (arith, v.balance x);
          off_stack = λ j x h. ground (arith, v.off_stack j x, v.alone i j x);
          alone = λ j k x h g. ground (arith, v.alone j k x);
          written = λ j. ground (arith, v.written j);
        },
      )
  Step-Kept (retry i node head at) = (
    ns,
    ts,
    record {
      stack = v.stack;
      taken = v.taken;
      balance = v.balance;
      off_stack = λ j x h. ground (arith, v.off_stack j x, v.off_stack i x);
      alone = λ j k x h g. ground (arith, v.alone j k x, v.alone i k x, v.alone j i x);
      written = λ j. ground (arith, v.written j);
    },
  )
  Step-Kept (swap empty) = (
    [],
    ns,
    record {
      stack = refl;
      taken = v.stack;
      balance = λ x. omega (arith, v.balance x, count-taken_null s.mem s.taken ts x v.taken empty);
      off_stack = λ j x h. ground (arith, v.off_stack j x);
      alone = v.alone;
      written = v.written;
    },
  )
  Step-Kept (free_head some) = freed-Kept ts v (pop s.mem s.taken ts v.taken some)
  Step-Kept (reuse x w live) =
      let out : count x ns ≡ 0 = omega (arith, v.balance x, live.drained) in
      let gone : count x ts ≡ 0 = omega (arith, v.balance x, live.drained) in
      (
        ns,
        ts,
        record {
          stack = IsStack-write s.mem ns s.remote_frees x w out v.stack;
          taken = IsStack-write s.mem ts s.taken x w gone v.taken;
          balance = v.balance;
          off_stack = v.off_stack;
          alone = v.alone;
          written = λ j. IsWritten-update s.mem (s.pc j) x w (live.unheld j) (v.written j);
        },
      )

Reach-Kept : {m : Mem} {s : Stack} → Reach m s → Kept s
Reach-Kept here = (
  [],
  [],
  record {
    stack = refl;
    taken = refl;
    balance = λ x. omega arith;
    off_stack = λ i x h. cc;
    alone = λ i j x h g. cc;
    written = λ i. tt;
  },
)
Reach-Kept (next r step) = let (ns, ts, v) = Reach-Kept r in Step-Kept v step

-- Every reachable state accounts for each push: the block has been freed once, or is still in the
-- stack, or is still in the list that the owner has taken; the two lists are well formed.
pub Reach-accounts :
    {m : Mem} {s : Stack}
    → Reach m s
    → (ns : List Ptr) × (ts : List Ptr) × IsStack s.mem s.remote_frees ns
      × IsStack s.mem s.taken ts
      × ((x : Ptr) → count x s.pushed ≡ count x s.freed + count x ns + count x ts)
Reach-accounts r = let (ns, ts, v) = Reach-Kept r in (ns, ts, v.stack, v.taken, v.balance)

-- In a reachable state, when the stack is empty and the owner has nothing left, each block has
-- been freed as often as it was pushed.
pub Reach-drained :
    {m : Mem} {s : Stack}
    → Reach m s
    → s.remote_frees ≡ null
    → s.taken ≡ null
    → (x : Ptr) → count x s.freed ≡ count x s.pushed
Reach-drained {s} r e d x =
    let (ns, ts, v) = Reach-Kept r in
    omega (
      arith,
      v.balance x,
      count-taken_null s.mem s.remote_frees ns x v.stack e,
      count-taken_null s.mem s.taken ts x v.taken d,
    )
