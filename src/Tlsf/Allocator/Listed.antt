-- ===== src/Tlsf/Allocator/Listed.antt =====
-- The free blocks of src/tlsf.rs as a function from addresses to sizes: the lists and the bitmaps
-- hold exactly these blocks, each in the bin of its size.
use ferrum_alloc.Base.{
  ℕ, ◌%◌, ◌^◌, ◌≤◌, ◌<◌, ◌≡◌, ◌≢◌, refl, sym, ◌∙◌, true, false, List, [], ◌∷◌, arith, ◌==◌,
  if◌then◌else◌,
}
use ferrum_alloc.Memory.{Ptr, null, Mem, update}
use ferrum_alloc.Tlsf.Mapping.{mapping}
use ferrum_alloc.Tlsf.Mapping.Bins.{mapping-lt}
use ferrum_alloc.Tlsf.Block.{link_prev, link_next, size}
use ferrum_alloc.Tlsf.Allocator.{Tlsf, with_mem, link, insert_free, remove_free}
use ferrum_alloc.Tlsf.Allocator.Chain.{
  has, erase, Chain, SameLinks, Chain-frame, unlink, head-mem, prev-mem, next-mem,
}
use ferrum_alloc.Tlsf.Allocator.Bitmaps.{
  BitmapsAgree, insert_free-BitmapsAgree, remove_free-BitmapsAgree,
}
use ferrum_alloc.Tlsf.Allocator.Links.{
  Bins, set_bin, IsLinked, insert_free-IsLinked, remove_free-IsLinked, remove_free-mem,
}

-- `free x` is the size of the free block at `x`, and 0 where there is none.
pub record IsListed (t : Tlsf) (free : Ptr → ℕ) : Type 0 where
  pub bins : Bins
  pub agree : BitmapsAgree t
  pub linked : IsLinked t bins
  pub listed : (f l x : ℕ) → has x (bins f l) ≡ true → (free x ≢ 0) × (mapping (free x) ≡ (f, l))
  pub complete :
      (x : Ptr) → free x ≢ 0 → has x (bins (mapping (free x)).0 (mapping (free x)).1) ≡ true

-- The sizes with that of one address changed.
abbrev pub with_free : (Ptr → ℕ) → Ptr → ℕ → Ptr → ℕ
with_free free x n y = if y == x then n else free y

erase_self :
    (m : Mem) (bs : List Ptr) (prev p x : Ptr) → Chain m prev p bs → has x (erase x bs) ≡ false
erase_self m [] prev p x c = refl
erase_self m (b ∷ bs) prev p x (e, real, even, out, back, rest) =
    ground (arith, erase_self m bs b (m (link_next b)) x rest)

erase-other : (bs : List Ptr) (x y : Ptr) → y ≢ x → has y (erase x bs) ≡ has y bs
erase-other [] x y ne = refl
erase-other (b ∷ bs) x y ne = ground (arith, erase-other bs x y ne)

pub no-head :
    (m : Mem) (bs : List Ptr) (prev p x : Ptr) → Chain m prev p bs → p ≡ null → has x bs ≡ false
no-head m [] prev p x c e = refl
no-head m (b ∷ bs) prev p x (same, real, even, out, back, rest) e = absurd (real (sym same ∙ e))

module _ (t : Tlsf) (free : Ptr → ℕ) (v : IsListed t free) where
  -- Only the links of free blocks matter.
  pub IsListed-frame :
      (g : Mem) → ((x : Ptr) → free x ≢ 0 → SameLinks t.mem g x) → IsListed (with_mem t g) free
  IsListed-frame g same = record {
    bins = v.bins;
    agree = record {
      fl_word = v.agree.fl_word;
      sl_word = v.agree.sl_word;
      inside = v.agree.inside;
      second = v.agree.second;
      first = v.agree.first;
    };
    linked = record {
      chain = λ f l.
          Chain-frame t.mem g (v.bins f l) null (t.lists f l) (v.linked.chain f l)
            (λ x i even. same x (v.listed f l x i).0);
      unique = v.linked.unique;
    };
    listed = v.listed;
    complete = v.complete;
  }

  -- The same sizes, written otherwise.
  pub IsListed-ext : (sizes : Ptr → ℕ) → ((x : Ptr) → sizes x ≡ free x) → IsListed t sizes
  IsListed-ext sizes same = record {
    bins = v.bins;
    agree = v.agree;
    linked = v.linked;
    listed = λ f l x i. rw (same x) (v.listed f l x i);
    complete = λ x real. rw (same x) (v.complete x (rw (same x) at real));
  }

  fresh : (x f l : ℕ) → free x ≡ 0 → has x (v.bins f l) ≡ false
  fresh x f l none = ground (arith, v.listed f l x)

  pub insert_free-IsListed :
      (x n : ℕ)
      → x ≢ null
      → x % 16 ≡ 0
      → free x ≡ 0
      → size t.mem x ≡ n
      → 16 ≤ n
      → n < 2 ^ 22
      → IsListed (insert_free t x) (with_free free x n)
  insert_free-IsListed x n real even none sized low high =
      let (hf, hl) = mapping-lt n low high in
      record {
        bins = set_bin v.bins (mapping n).0 (mapping n).1 (x ∷ v.bins (mapping n).0 (mapping n).1);
        agree = insert_free-BitmapsAgree t x real (rw sized hf) (rw sized hl) v.agree;
        linked =
            rw sized at
              (insert_free-IsLinked t v.bins x real even (λ f l. fresh x f l none) v.linked);
        listed = λ f l y i. ground (arith, v.listed f l y, fresh x f l none);
        complete = λ y has_size. ground (arith, v.complete y);
      }

  pub remove_free-IsListed :
      (x : Ptr)
      → free x ≢ 0
      → size t.mem x ≡ free x
      → IsListed (remove_free t x) (with_free free x 0)
  remove_free-IsListed x real sized =
      let f0 : ℕ = (mapping (free x)).0 in
      let l0 : ℕ = (mapping (free x)).1 in
      let inside = v.complete x real in
      let c = v.linked.chain f0 l0 in
      record {
        bins = set_bin v.bins f0 l0 (erase x (v.bins f0 l0));
        agree =
            remove_free-BitmapsAgree t x
              (rw sized
                (λ e. ground (arith, no-head t.mem (v.bins f0 l0) null (t.lists f0 l0) x c e)))
              v.agree;
        linked = rw sized at (remove_free-IsLinked t v.bins x v.linked (rw sized inside));
        listed = λ f l y i. ground (
          arith,
          v.listed f l y,
          v.listed f0 l0 y,
          erase_self t.mem (v.bins f0 l0) null (t.lists f0 l0) x c,
          erase-other (v.bins f0 l0) x y,
        );
        complete = λ y has_size. ground (arith, v.complete y, erase-other (v.bins f0 l0) x y);
      }

  -- No word changes but the links of free blocks and of the block itself.
  module _ (y : Ptr) (out : (x : Ptr) → free x ≢ 0 → (y ≢ link_prev x) × (y ≢ link_next x)) where
    pub remove_free-outside :
        (x : Ptr) → free x ≢ 0 → size t.mem x ≡ free x → (remove_free t x).mem y ≡ t.mem y
    unfolding unlink update
    remove_free-outside x real sized =
        let f0 : ℕ = (mapping (free x)).0 in
        let l0 : ℕ = (mapping (free x)).1 in
        let bs = v.bins f0 l0 in
        let c = v.linked.chain f0 l0 in
        let prev = t.mem (link_prev x) in
        let next = t.mem (link_next x) in
        let inside = v.complete x real in
        rw (remove_free-mem t x) (
          ground (
            arith,
            prev-mem t.mem bs null (t.lists f0 l0) x c inside,
            next-mem t.mem bs null (t.lists f0 l0) x c inside,
            v.listed f0 l0 (t.mem (link_prev x)),
            v.listed f0 l0 (t.mem (link_next x)),
            out (t.mem (link_prev x)),
            out (t.mem (link_next x)),
          ))

    pub insert_free-outside :
        (x : Ptr) → y ≢ link_prev x → y ≢ link_next x → (insert_free t x).mem y ≡ t.mem y
    unfolding insert_free link update
    insert_free-outside x np nn =
        let f0 : ℕ = (mapping (size t.mem x)).0 in
        let l0 : ℕ = (mapping (size t.mem x)).1 in
        ground (
          arith,
          head-mem t.mem (v.bins f0 l0) null (t.lists f0 l0) (v.linked.chain f0 l0),
          v.listed f0 l0 (t.lists f0 l0),
          out (t.lists f0 l0),
        )
