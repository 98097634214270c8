-- ===== src/Tlsf/Allocator/Links.antt =====
-- The table of free lists of src/tlsf.rs stands for a table of lists of blocks, on which
-- `insert_free` and `remove_free` act at one bin.
use ferrum_alloc.Base.{
  ℕ, ◌%◌, ◌≡◌, ◌≢◌, refl, true, false, ◌&&◌, List, ◌∷◌, arith, ◌==◌, if◌then◌else◌, Bool-cases, ◌⊎◌,
  inl, inr,
}
use ferrum_alloc.Memory.{Ptr, null, update}
use ferrum_alloc.Tlsf.Mapping.{mapping}
use ferrum_alloc.Tlsf.Block.{link_prev, link_next, size}
use ferrum_alloc.Tlsf.Allocator.{Tlsf, link, insert_free, remove_free, clear_bits}
use ferrum_alloc.Tlsf.Allocator.Chain.{
  has, erase, Chain, Chain-frame, Chain-link, link-SameLinks, unlink, next-even, prev-mem, next-mem,
  head-mem, head-back, head-even, has-erase, has-null,
}
use ferrum_alloc.Tlsf.Allocator.Unlink.{Chain-unlink, unlink-SameLinks, pv-even}

abbrev pub Bins : Type 0
Bins = ℕ → ℕ → List Ptr

-- The table with one list changed.
abbrev pub set_bin : Bins → ℕ → ℕ → List Ptr → Bins
set_bin bins f0 l0 bs f l = if (f == f0) && (l == l0) then bs else bins f l

-- Each list of the allocator is the chain of its bin, and no block is in two bins.
pub record IsLinked (t : Tlsf) (bins : Bins) : Type 0 where
  pub chain : (f l : ℕ) → Chain t.mem null (t.lists f l) (bins f l)
  pub unique :
      (x f l g m : ℕ) → has x (bins f l) ≡ true → has x (bins g m) ≡ true → (f ≡ g) × (l ≡ m)

bin-cases : (f f0 l l0 : ℕ) → ((f ≡ f0) × (l ≡ l0)) ⊎ ((f ≢ f0) ⊎ (l ≢ l0))
bin-cases f f0 l l0 = elim (Bool-cases (f == f0)) [
  | inl e ↦ elim (Bool-cases (l == l0)) [
    | inl d ↦ inl (ground arith, ground arith)
    | inr d ↦ inr (inr (ground arith))
  ]
  | inr e ↦ inr (inl (ground arith))
]

-- An entry of a table of two indices that is written, or another one.
abbrev Other : (f f0 l l0 : ℕ) → Type 0
Other f f0 l l0 = (f ≢ f0) ⊎ (l ≢ l0)

module _ (f f0 l l0 : ℕ) where
  set_bin_same : (bins : Bins) (bs : List Ptr) → f ≡ f0 → l ≡ l0 → set_bin bins f0 l0 bs f l ≡ bs
  set_bin_same bins bs ef el = ground arith

  set_bin-Other :
      (bins : Bins) (bs : List Ptr) → Other f f0 l l0 → set_bin bins f0 l0 bs f l ≡ bins f l
  set_bin-Other bins bs other = ground arith

  update_same : (a : ℕ → ℕ → ℕ) (v : ℕ) → f ≡ f0 → l ≡ l0 → update a f0 (update (a f0) l0 v) f l ≡ v
  unfolding update
  update_same a v ef el = ground arith

  update-Other :
      (a : ℕ → ℕ → ℕ) (v : ℕ) → Other f f0 l l0 → update a f0 (update (a f0) l0 v) f l ≡ a f l
  unfolding update
  update-Other a v other = ground arith

module _ (t : Tlsf) (bins : Bins) (block f0 l0 : ℕ) (v : IsLinked t bins) where
  abbrev head : Ptr
  head = t.lists f0 l0

  link-Other :
      block % 16 ≡ 0
      → ((f l : ℕ) → has block (bins f l) ≡ false)
      → (f l : ℕ) → Other f f0 l l0
      → Chain (link t.mem block head) null (t.lists f l) (bins f l)
  link-Other even fresh f l other =
      Chain-frame t.mem (link t.mem block head) (bins f l) null (t.lists f l) (v.chain f l)
        λ x i ex.
          link-SameLinks t.mem block head x even
            (head-even t.mem (bins f0 l0) null head (v.chain f0 l0)) ex
            (λ q. ground (arith, fresh f l))
            (λ q. ground (
              arith,
              head-mem t.mem (bins f0 l0) null head (v.chain f0 l0),
              has-null t.mem (bins f l) null (t.lists f l) (v.chain f l),
              v.unique x f l f0 l0,
            ))

  unlink-Other :
      has block (bins f0 l0) ≡ true
      → (f l : ℕ) → Other f f0 l l0
      → Chain (unlink t.mem block) null (t.lists f l) (bins f l)
  unlink-Other inside f l other =
      Chain-frame t.mem (unlink t.mem block) (bins f l) null (t.lists f l) (v.chain f l) λ x i ex.
        unlink-SameLinks t.mem block x
          (pv-even t.mem block (bins f0 l0) head (v.chain f0 l0) inside)
          (next-even t.mem (bins f0 l0) null head block (v.chain f0 l0) inside) ex
          (λ q. ground (
            arith,
            prev-mem t.mem (bins f0 l0) null head block (v.chain f0 l0),
            has-null t.mem (bins f l) null (t.lists f l) (v.chain f l),
            v.unique x f l f0 l0,
          ))
          (λ q. ground (
            arith,
            next-mem t.mem (bins f0 l0) null head block (v.chain f0 l0),
            has-null t.mem (bins f l) null (t.lists f l) (v.chain f l),
            v.unique x f l f0 l0,
          ))

-- While the lists of the table are the doubly linked chains of `bins`, `insert_free` of an aligned
-- block that is in none of them puts it in front of the bin of its size and leaves the other
-- chains alone.
pub insert_free-IsLinked :
    (t : Tlsf) (bins : Bins) (block : Ptr)
    → block ≢ null
    → block % 16 ≡ 0
    → ((f l : ℕ) → has block (bins f l) ≡ false)
    → IsLinked t bins
    → let (f0, l0) = mapping (size t.mem block) in
      IsLinked (insert_free t block) (set_bin bins f0 l0 (block ∷ bins f0 l0))
unfolding insert_free
insert_free-IsLinked t bins block real even fresh v =
    let f0 : ℕ = (mapping (size t.mem block)).0 in
    let l0 : ℕ = (mapping (size t.mem block)).1 in
    record {
      chain = λ f l. elim (bin-cases f f0 l l0) [
        | inl (ef, el) ↦
            rw
              (
                update_same f f0 l l0 t.lists block ef el,
                set_bin_same f f0 l l0 bins (block ∷ bins f0 l0) ef el,
              )
              (Chain-link t.mem (bins f0 l0) block (t.lists f0 l0) real even (fresh f0 l0)
                (v.chain f0 l0))
        | inr other ↦
            rw
              (
                update-Other f f0 l l0 t.lists block other,
                set_bin-Other f f0 l l0 bins (block ∷ bins f0 l0) other,
              )
              (link-Other t bins block f0 l0 v even fresh f l other)
      ];
      unique = λ x f l g m i j. ground (
        arith,
        fresh f l,
        fresh g m,
        fresh f0 l0,
        v.unique x f l g m,
        v.unique x f0 l0 g m,
        v.unique x f l f0 l0,
      );
    }

-- What `remove_free` leaves in memory and in the table of heads.
pub remove_free-mem : (t : Tlsf) (block : Ptr) → (remove_free t block).mem ≡ unlink t.mem block
unfolding remove_free clear_bits unlink
remove_free-mem t block = ground arith

module _ (t : Tlsf) (block : Ptr) where
  abbrev first : ℕ
  first = (mapping (size t.mem block)).0

  abbrev second : ℕ
  second = (mapping (size t.mem block)).1

  remove_free-lists-Other :
      (f l : ℕ) → Other f first l second → (remove_free t block).lists f l ≡ t.lists f l
  unfolding remove_free clear_bits update
  remove_free-lists-Other f l other = ground arith

  remove_free-lists_same :
      (remove_free t block).lists first second
      ≡ (if t.mem (link_prev block) == null then t.mem (link_next block) else t.lists first second)
  unfolding remove_free clear_bits update
  remove_free-lists_same = ground arith

  -- A block is first in its chain when it has no predecessor.
  is_first :
      (bs : List Ptr) (p : Ptr)
      → Chain t.mem null p bs
      → has block bs ≡ true
      → (t.mem (link_prev block) == null) ≡ (p == block)
  is_first bs p c i = ground (
    arith,
    prev-mem t.mem bs null p block c i,
    has-null t.mem bs null p c,
    head-back t.mem bs null p c,
  )

-- While the lists of the table are the doubly linked chains of `bins`, `remove_free` of a block in
-- the bin of its size takes it out of that bin's chain and leaves the other chains alone.
pub remove_free-IsLinked :
    (t : Tlsf) (bins : Bins) (block : Ptr)
    → IsLinked t bins
    → has block (bins (mapping (size t.mem block)).0 (mapping (size t.mem block)).1) ≡ true
    → let (f0, l0) = mapping (size t.mem block) in
      IsLinked (remove_free t block) (set_bin bins f0 l0 (erase block (bins f0 l0)))
remove_free-IsLinked t bins block v inside =
    let f0 : ℕ = first t block in
    let l0 : ℕ = second t block in
    record {
      chain = λ f l. elim (bin-cases f f0 l l0) [
        | inl (ef, el) ↦
            rw
              (
                ef,
                el,
                remove_free-mem t block,
                set_bin_same f0 f0 l0 l0 bins (erase block (bins f0 l0)) refl refl,
                remove_free-lists_same t block,
                is_first t block (bins f0 l0) (t.lists f0 l0) (v.chain f0 l0) inside,
              )
              (Chain-unlink t.mem block (bins f0 l0) (t.lists f0 l0) (v.chain f0 l0) inside)
        | inr other ↦
            rw
              (
                remove_free-mem t block,
                set_bin-Other f f0 l l0 bins (erase block (bins f0 l0)) other,
                remove_free-lists-Other t block f l other,
              )
              (unlink-Other t bins block f0 l0 v inside f l other)
      ];
      unique = λ x f l g m i j. ground (
        arith,
        has-erase block x (bins f0 l0),
        v.unique x f l g m,
        v.unique x f0 l0 g m,
        v.unique x f l f0 l0,
      );
    }
