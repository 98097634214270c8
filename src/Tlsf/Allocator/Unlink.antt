-- ===== src/Tlsf/Allocator/Unlink.antt =====
-- The two writes of `remove_free` (src/tlsf.rs) take one block out of its chain.
use ferrum_alloc.Base.{
  ◌%◌, ◌≡◌, ◌≢◌, sym, ◌∙◌, true, false, List, [], ◌∷◌, arith, ◌==◌, if◌then◌else◌, Bool-cases, inl,
  inr,
}
use ferrum_alloc.Memory.{Ptr, null, Mem, update}
use ferrum_alloc.Tlsf.Block.{link_prev, link_next}
use ferrum_alloc.Tlsf.Allocator.Chain.{
  has, erase, Chain, SameLinks, Chain-behind, unlink, next-even, prev-mem, next-mem, head-mem,
  head-back, has-erase, has-null, has-even,
}

module _ (m : Mem) (block : Ptr) where
  abbrev pv : Ptr
  pv = m (link_prev block)

  abbrev nx : Ptr
  nx = m (link_next block)

  pub unlink-SameLinks :
      (x : Ptr)
      → pv % 16 ≡ 0
      → nx % 16 ≡ 0
      → x % 16 ≡ 0
      → x ≢ pv
      → x ≢ nx
      → SameLinks m (unlink m block) x
  unfolding unlink update
  unlink-SameLinks x ep en ex np nn = ground arith

  unlink-next :
      pv % 16 ≡ 0
      → nx % 16 ≡ 0
      → nx ≢ pv
      → nx ≢ null
      → (unlink m block (link_prev nx) ≡ pv) × (unlink m block (link_next nx) ≡ m (link_next nx))
  unfolding unlink update
  unlink-next ep en ne nn = ground arith

  unlink-prev :
      pv % 16 ≡ 0
      → nx % 16 ≡ 0
      → nx ≢ pv
      → pv ≢ null
      → (unlink m block (link_next pv) ≡ nx) × (unlink m block (link_prev pv) ≡ m (link_prev pv))
  unfolding unlink update
  unlink-prev ep en ne nn = ground arith

  -- The block before `block`, or another block on the way to it.
  module _ (b : Ptr) (bs : List Ptr) (ep : pv % 16 ≡ 0) (en : nx % 16 ≡ 0) (even : b % 16 ≡ 0)
      (real : b ≢ null) (new : has b bs ≡ false) (rest : Chain m b (m (link_next b)) bs)
      (inside : has block bs ≡ true) where
    apart : b ≢ nx
    apart q = ground (arith, next-mem m bs b (m (link_next b)) block rest inside)

    before-back : unlink m block (link_prev b) ≡ m (link_prev b)
    before-back = elim (Bool-cases (b == pv)) [
      | inl prior ↦
          let same : b ≡ pv = ground arith in
          let keep = (unlink-prev ep en (λ q. apart (same ∙ sym q)) (λ q. real (same ∙ q))).1 in
          rw same keep
      | inr far ↦ (unlink-SameLinks b ep en even (λ q. ground arith) apart).0
    ]

    block_real : block ≢ null
    block_real q = ground (arith, has-null m bs b (m (link_next b)) rest)

    before-next :
        unlink m block (link_next b) ≡ (if m (link_next b) == block then nx else m (link_next b))
    before-next = elim (Bool-cases (m (link_next b) == block)) [
      | inl prior ↦
          let at : m (link_next b) ≡ block = ground arith in
          let back : m (link_prev (m (link_next b))) ≡ b =
            head-back m bs b (m (link_next b)) rest (λ q. block_real (sym at ∙ q)) in
          let same : pv ≡ b = rw at at back in
          let moved =
            (unlink-prev ep en (λ q. apart (sym (q ∙ same))) (λ q. real (sym same ∙ q))).0 in
          rw prior (rw same at moved)
      | inr far ↦
          let other : b ≢ pv =
            λ q. ground (arith, prev-mem m bs b (m (link_next b)) block rest inside) in
          rw far (unlink-SameLinks b ep en even other apart).1
    ]

  pub pv-even : (bs : List Ptr) (p : Ptr) → Chain m null p bs → has block bs ≡ true → pv % 16 ≡ 0
  pv-even bs p c i =
      ground (arith, prev-mem m bs null p block c i, has-even m bs null p (m (link_prev block)) c)

  -- A chain without `block`, whose successor takes its place.
  Chain-unlink_even :
      (bs : List Ptr) (prev p : Ptr)
      → pv % 16 ≡ 0
      → nx % 16 ≡ 0
      → has prev bs ≡ false
      → Chain m prev p bs
      → has block bs ≡ true
      → Chain (unlink m block) prev (if p == block then nx else p) (erase block bs)
  Chain-unlink_even [] prev p ep en out c i = cc
  Chain-unlink_even (b ∷ bs) prev p ep en out (e, real, even, new, back, rest) i =
      elim (Bool-cases (block == b)) [
        | inl here ↦
            let same : b ≡ block = ground arith in
            let at : (p == block) ≡ true = ground arith in
            let from : Chain m block nx bs = rw same at rest in
            let back' : pv ≡ prev = rw same at back in
            rw (here, at)
              (Chain-behind m (unlink m block) bs block nx prev from
                (λ nn _.
                  let ne : nx ≢ pv = λ q. ground (arith, head-mem m bs block nx from) in
                  let (f1, f2) = unlink-next ep en ne nn in (f1 ∙ back', f2))
                (λ x ix ex ne. unlink-SameLinks x ep en ex (λ q. ground arith) ne))
        | inr there ↦
            let inside : has block bs ≡ true = ground arith in
            let at : (p == block) ≡ false = ground arith in
            rw (there, at)
              (
                e,
                real,
                even,
                has-erase block b bs new,
                before-back b bs ep en even real new rest inside ∙ back,
                rw (before-next b bs ep en even real new rest inside)
                    (Chain-unlink_even bs b (m (link_next b)) ep en new rest inside),
              )
      ]

  pub Chain-unlink :
      (bs : List Ptr) (p : Ptr)
      → Chain m null p bs
      → has block bs ≡ true
      → Chain (unlink m block) null (if p == block then nx else p) (erase block bs)
  Chain-unlink bs p c i =
      Chain-unlink_even bs null p (pv-even bs p c i) (next-even m bs null p block c i)
        (has-null m bs null p c) c i
