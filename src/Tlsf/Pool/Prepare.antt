-- ===== src/Tlsf/Pool/Prepare.antt =====
-- `prepare_used` of src/tlsf.rs over the blocks of the pool.
use ferrum_alloc.Base.{
  ℕ, ◌+◌, ◌-◌, ◌%◌, ◌≤◌, ◌≡◌, refl, Bool, true, false, List, ◌∷◌, ◌++◌, arith, leb, inl, inr,
  Bool-cases,
}
use ferrum_alloc.Base.Word.{sub_size}
use ferrum_alloc.Memory.{Ptr}
use ferrum_alloc.Tlsf.Mapping.{header_size, min_payload}
use ferrum_alloc.Tlsf.Block.{payload, next_phys, mark_used, mark_prev_used}
use ferrum_alloc.Tlsf.Allocator.{Tlsf, with_mem, split, prepare_used}
use ferrum_alloc.Tlsf.Pool.{Part, used_part, free_part, stop}
use ferrum_alloc.Tlsf.Pool.Coalesce.{taken}
use ferrum_alloc.Tlsf.Pool.Tags.{small}
use ferrum_alloc.Tlsf.Pool.State.{IsPool, IsOpen, IsPool-close, open-size}
use ferrum_alloc.Tlsf.Pool.Used.{mark_used-IsOpen, mark_prev_used-IsOpen}
use ferrum_alloc.Tlsf.Pool.Split.{split-IsOpen}

module _ (t : Tlsf) (a : Ptr) (us : List Part) (n : ℕ) (vs : List Part) where
  -- A block that is out of the lists becomes a used one.
  finish :
      (known : Bool)
      → IsOpen t a us n true known vs
      → IsPool
          (with_mem t (
            mark_prev_used
              (mark_used t.mem (stop a us))
              (next_phys (mark_used t.mem (stop a us)) (stop a us))))
          a
          (us ++ used_part n ∷ vs)
  finish known o =
      let o1 = mark_used-IsOpen t a us n vs true known o in
      let t1 = with_mem t (mark_used t.mem (stop a us)) in
      let o2 = mark_prev_used-IsOpen t1 a us n vs false known o1 in
      IsPool-close (with_mem t1 (mark_prev_used t1.mem (next_phys t1.mem (stop a us)))) a us
        (used_part n) vs o2.lay o2.tags o2.front (ground arith) o2.back o2.listed

-- The block is cut down to `n` bytes, or kept as it is.
pub prepare_used-IsPool :
    (t : Tlsf) (a : Ptr) (us : List Part) (k n : ℕ) (vs : List Part)
    → IsOpen t a us k true true vs
    → min_payload ≤ n
    → n % 16 ≡ 0
    → n ≤ k
    → ((prepare_used t (stop a us) n).0 ≡ payload (stop a us))
      × IsPool (prepare_used t (stop a us) n).1 a (us ++ taken k n vs)
unfolding prepare_used
prepare_used-IsPool t a us k n vs o low whole fits =
    let is_size = open-size t a us k vs true true o.lay o.tags in
    let left : sub_size k n ≡ k - n = omega (arith, small a us k vs o.lay) in
    (
      refl,
      rw (is_size, left)
          (elim (Bool-cases (leb 32 (k - n))) [
            | inl cuts ↦ rw cuts (
                let e : k ≡ n + header_size + (k - n - header_size) = ground arith in
                let e' : header_size + (k - n - header_size) ≡ k - n = ground arith in
                rw e' at (
                  finish (split t (stop a us) n (header_size + (k - n - header_size))) a us n
                    (free_part (k - n - header_size) ∷ vs) false
                    (split-IsOpen t a us n (k - n - header_size) vs (rw e at o) low whole
                      (ground arith) (omega (arith, o.lay.whole)))))
            | inr keeps ↦ rw keeps (finish t a us k vs true o)
          ]),
    )
