-- ===== src/Tlsf/Pool/Merged.antt =====
-- The two merges of `free` of src/tlsf.rs, with a used neighbour or a free one.
use ferrum_alloc.Base.{
  ℕ, ◌+◌, ◌≡◌, ◌≢◌, refl, ◌∙◌, sym, ap, subst, Bool, true, false, List, [], ◌∷◌, ◌++◌, arith,
  Bool-cases, inl, inr,
}
use ferrum_alloc.Memory.{Ptr}
use ferrum_alloc.Tlsf.Mapping.{header_size}
use ferrum_alloc.Tlsf.Allocator.{Tlsf, merge_next, merge_prev}
use ferrum_alloc.Tlsf.Pool.{Part, used_part, free_part, stop, NoPair, last_free, head_free}
use ferrum_alloc.Tlsf.Pool.Layout.{row_assoc}
use ferrum_alloc.Tlsf.Pool.State.{IsOpen}
use ferrum_alloc.Tlsf.Pool.Merge.{
  merge_next-mem, merge_next-used, merge_prev-used, merge_next-IsOpen,
}
use ferrum_alloc.Tlsf.Pool.MergePrev.{merge_prev-mem, merge_prev-IsOpen}
use ferrum_alloc.Tlsf.Pool.Coalesce.{coalesce, coalesce-cong, coalesce-join}
use ferrum_alloc.Tlsf.Pool.Owned.{Owned}

head-apart : (vs : List Part) → NoPair true vs → head_free vs ≡ false
head-apart [] h = refl
head-apart (v ∷ vs) (apart, rest) = apart

-- The block behind is used, or merged.
pub record IsMergedNext (t : Tlsf) (a : Ptr) (us : List Part) (n : ℕ) (vs : List Part)
    (result : Ptr × Tlsf) : Type 0 where
  pub size' : ℕ
  pub behind : List Part
  pub known : Bool
  pub address : result.0 ≡ stop a us
  pub opened : IsOpen result.1 a us size' true known behind
  pub apart : head_free behind ≡ false
  pub same : coalesce (free_part size' ∷ behind) ≡ coalesce (free_part n ∷ vs)
  pub kept :
      (b y : Ptr)
      → b ≢ stop a us
      → Owned a (us ++ used_part n ∷ vs) b y
      → (result.1.mem y ≡ t.mem y) × Owned a (us ++ used_part size' ∷ behind) b y

next_stays :
    (t : Tlsf) (a : Ptr) (us : List Part) (n : ℕ) (vs : List Part)
    → IsOpen t a us n true false vs
    → head_free vs ≡ false
    → IsMergedNext t a us n vs (merge_next t (stop a us))
next_stays t a us n vs o apart = rw (merge_next-used t a us n vs false o apart) record {
  size' = n;
  behind = vs;
  known = false;
  address = refl;
  opened = o;
  apart = apart;
  same = refl;
  kept = λ b y ne w. (refl, w);
}

pub merge_next-IsMergedNext :
    (t : Tlsf) (a : Ptr) (us : List Part) (n : ℕ) (vs : List Part)
    → IsOpen t a us n true false vs
    → IsMergedNext t a us n vs (merge_next t (stop a us))
merge_next-IsMergedNext t a us n [] o = next_stays t a us n [] o refl
merge_next-IsMergedNext t a us n (v ∷ ws) o = elim (Bool-cases v.free) [
  | inl frees ↦
      let o' =
        subst (λ (b : Bool). IsOpen t a us n true false (record { bytes = v.bytes; free = b } ∷ ws))
          frees o in
      let (address, opened) = merge_next-IsOpen t a us n v.bytes ws false o' in
      record {
        size' = n + header_size + v.bytes;
        behind = ws;
        known = true;
        address = address;
        opened = opened;
        apart = head-apart ws opened.back;
        same =
            sym (coalesce-join n v.bytes ws)
            ∙ ap (λ (b : Bool). coalesce (free_part n ∷ record { bytes = v.bytes; free = b } ∷ ws))
                (sym frees);
        kept = λ b y ne w. merge_next-mem t a us n v.bytes ws false o' b y ne (
            subst
              (λ (f : Bool).
                Owned a (us ++ used_part n ∷ record { bytes = v.bytes; free = f } ∷ ws) b y)
              frees w);
      }
  | inr uses ↦ next_stays t a us n (v ∷ ws) o uses
]

pub record IsMergedPrev (t : Tlsf) (a : Ptr) (us : List Part) (n : ℕ) (vs : List Part)
    (result : Ptr × Tlsf) : Type 0 where
  pub before : List Part
  pub size' : ℕ
  pub known : Bool
  pub address : result.0 ≡ stop a before
  pub opened : IsOpen result.1 a before size' true known vs
  pub apart : last_free false before ≡ false
  pub same : coalesce (before ++ free_part size' ∷ vs) ≡ coalesce (us ++ free_part n ∷ vs)
  pub kept :
      (b y : Ptr)
      → b ≢ stop a us
      → Owned a (us ++ used_part n ∷ vs) b y
      → (result.1.mem y ≡ t.mem y)
        × Owned a (before ++ used_part size' ∷ vs) b y
        × (b ≢ stop a before)

-- The last block, when it is free.
record IsLastFree (us : List Part) : Type 0 where
  pub before : List Part
  bytes : ℕ
  same : us ≡ before ++ free_part bytes ∷ []

last_block : (us : List Part) → last_free false us ≡ true → IsLastFree us
last_block [] e = absurd (ground arith)
last_block (u ∷ []) e = record {
  before = [];
  bytes = u.bytes;
  same = ap (λ (b : Bool). record { bytes = u.bytes; free = b } ∷ []) e;
}
last_block (u ∷ w ∷ us) e =
    let rest = last_block (w ∷ us) e in
    record { before = u ∷ rest.before; bytes = rest.bytes; same = ap (λ ps. u ∷ ps) rest.same }

pub merge_prev-IsMergedPrev :
    (t : Tlsf) (a : Ptr) (us : List Part) (n : ℕ) (vs : List Part) (known : Bool)
    → IsOpen t a us n true known vs
    → IsMergedPrev t a us n vs (merge_prev t (stop a us))
merge_prev-IsMergedPrev t a us n vs known o = elim (Bool-cases (last_free false us)) [
  | inl frees ↦
      let w = last_block us frees in
      let o' = subst (λ ps. IsOpen t a ps n true known vs) w.same o in
      let (address, opened, apart) = merge_prev-IsOpen t a w.before w.bytes n vs known o' in
      let back : (merge_prev t (stop a us))
          ≡ merge_prev t (stop a (w.before ++ free_part w.bytes ∷ [])) =
        ap (λ ps. merge_prev t (stop a ps)) w.same in
      rw back record {
        before = w.before;
        size' = w.bytes + header_size + n;
        known = known;
        address = address;
        opened = opened;
        apart = apart;
        same =
            coalesce-cong w.before (free_part (w.bytes + header_size + n) ∷ vs)
              (free_part w.bytes ∷ free_part n ∷ vs) (sym (coalesce-join w.bytes n vs))
            ∙ ap coalesce (sym (row_assoc w.before (free_part w.bytes) (free_part n ∷ vs)))
            ∙ ap (λ ps. coalesce (ps ++ free_part n ∷ vs)) (sym w.same);
        kept = λ b y ne own.
            merge_prev-mem t a w.before w.bytes n vs known o' b y
              (λ e. ne (e ∙ ap (stop a) (sym w.same)))
              (subst (λ ps. Owned a (ps ++ used_part n ∷ vs) b y) w.same own);
      }
  | inr uses ↦ rw (merge_prev-used t a us n vs known o uses) record {
    before = us;
    size' = n;
    known = known;
    address = refl;
    opened = o;
    apart = uses;
    same = refl;
    kept = λ b y ne w. (refl, w, ne);
  }
]
