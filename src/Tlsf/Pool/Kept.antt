-- ===== src/Tlsf/Pool/Kept.antt =====
-- `prepare_used` of src/tlsf.rs leaves the words in the other used blocks alone.
use ferrum_alloc.Base.{
  ℕ, ◌+◌, ◌-◌, ◌%◌, ◌≤◌, ◌≡◌, ◌≢◌, refl, ◌∙◌, sym, ap, Bool, true, false, List, ◌∷◌, ◌++◌, arith,
  leb, Bool-cases, inl, inr,
}
use ferrum_alloc.Base.Word.{sub_size}
use ferrum_alloc.Memory.{Ptr, Mem, update}
use ferrum_alloc.Tlsf.Mapping.{header_size, min_payload}
use ferrum_alloc.Tlsf.Block.{mark_used, mark_prev_used, next_phys}
use ferrum_alloc.Tlsf.Allocator.{Tlsf, with_mem, split, insert_free, remove_free, prepare_used}
use ferrum_alloc.Tlsf.Pool.{Part, used_part, free_part, after, stop, starts, free_size}
use ferrum_alloc.Tlsf.Pool.Layout.{starts-append, starts_bounds}
use ferrum_alloc.Tlsf.Pool.Tags.{row-AllSized, small}
use ferrum_alloc.Tlsf.Pool.Lists.{free_size-free, heads-own, heads-next}
use ferrum_alloc.Tlsf.Pool.State.{
  IsPool, IsOpen, open-size, IsPool-layout, IsPool-tags, remove_free-IsOpen,
}
use ferrum_alloc.Tlsf.Pool.Used.{mark_used-IsOpen, open-next_phys}
use ferrum_alloc.Tlsf.Pool.Split.{
  g, at_rest, at_end, two, split-mem, two_listed, two-heads, two_lay, split-IsOpen,
}
use ferrum_alloc.Tlsf.Pool.Live.{used-none, used_size-append, used_size-ge}
use ferrum_alloc.Tlsf.Pool.Owned.{
  Owned, Owned-same, Owned-header, Owned-link, insert_free-Owned, remove_free-Owned,
  used_size-other,
}

-- The flags of the block and of the next one.
finish-mem :
    (t : Tlsf) (a : Ptr) (us : List Part) (n : ℕ) (vs : List Part) (known : Bool)
    → IsOpen t a us n true known vs
    → (b y : Ptr) → Owned a (us ++ used_part n ∷ vs) b y
    → (let m = mark_used t.mem (stop a us) in mark_prev_used m (next_phys m (stop a us))) y
      ≡ t.mem y
unfolding mark_used mark_prev_used update
finish-mem t a us n vs known o b y w =
    let row : List Part = us ++ used_part n ∷ vs in
    let sized = row-AllSized a us n vs o.lay in
    let own =
      Owned-header a row b y sized o.lay.even w (stop a us) (heads-own a us (used_part n) vs) in
    let next =
      Owned-header a row b y sized o.lay.even w (stop a us + (header_size + n))
        (heads-next a us (used_part n) vs) in
    let t1 = with_mem t (mark_used t.mem (stop a us)) in
    rw (open-next_phys t1 a us n vs false known (mark_used-IsOpen t a us n vs true known o))
      (ground (arith, own, next))

module _ (t : Tlsf) (a : Ptr) (us : List Part) (n r : ℕ) (ws : List Part)
    (o : IsOpen t a us (n + header_size + r) true true ws) (low : min_payload ≤ n)
    (whole : n % 16 ≡ 0) (low' : min_payload ≤ r) (whole' : r % 16 ≡ 0) (b y : Ptr)
    (ne : b ≢ stop a us) (w : Owned a (us ++ used_part (n + header_size + r) ∷ ws) b y) where
  abbrev rest : Ptr
  rest = at_rest t a us n r ws o low whole low' whole'

  abbrev row : List Part
  row = two t a us n r ws o low whole low' whole'

  -- Where the rest starts there was no block.
  not_rest : b ≢ rest
  not_rest e = w.used (
      rw (e, used_size-append a us (used_part (n + header_size + r) ∷ ws) rest)
        (ground (
          arith,
          starts_bounds a us rest o.lay.front o.lay.even,
          used_size-ge (after (stop a us) (used_part (n + header_size + r))) ws rest,
        )))

  two_Owned : Owned a row b y
  two_Owned =
      Owned-same a (us ++ used_part (n + header_size + r) ∷ ws) row b y
        (let ends : after (after (stop a us) (used_part n)) (used_part r)
              ≡ after (stop a us) (used_part (n + header_size + r)) =
            omega arith in
          rw
            (
              used_size-append a us (used_part n ∷ used_part r ∷ ws) b,
              used_size-append a us (used_part (n + header_size + r) ∷ ws) b,
              ends,
            )
            (ground (arith, not_rest)))
        w

  pub split-kept : (split t (stop a us) n (header_size + r)).mem y ≡ t.mem y
  unfolding update
  split-kept =
      let sized =
        row-AllSized a us n (used_part r ∷ ws) (two_lay t a us n r ws o low whole low' whole') in
      let (i_rest, i_end) = two-heads t a us n r ws o low whole low' whole' in
      let in_row : starts a row rest ≡ true =
        ground (arith, starts-append a us (used_part n ∷ used_part r ∷ ws) rest) in
      let own =
        Owned-header a row b y sized o.lay.even two_Owned (stop a us)
          (heads-own a us (used_part n) (used_part r ∷ ws)) in
      let at = Owned-header a row b y sized o.lay.even two_Owned rest i_rest in
      let ends =
        Owned-header a row b y sized o.lay.even two_Owned
          (at_end t a us n r ws o low whole low' whole') i_end in
      let links =
        Owned-link a row b y sized o.lay.even two_Owned rest in_row (λ e. not_rest (sym e)) in
      let m : Mem = g t a us n r ws o low whole low' whole' in
      let put : (insert_free (with_mem t m) rest).mem y ≡ m y =
        insert_free-Owned a row b y sized o.lay.even two_Owned (with_mem t m)
          (two_listed t a us n r ws o low whole low' whole') rest in_row (λ e. not_rest (sym e)) in
      rw (split-mem t a us n r ws o low whole low' whole')
        (put ∙ ground (arith, own, at, ends, links))

  cut_Owned : Owned a (us ++ used_part n ∷ free_part r ∷ ws) b y
  cut_Owned =
      Owned-same a row (us ++ used_part n ∷ free_part r ∷ ws) b y
        (rw
          (
            used_size-append a us (used_part n ∷ used_part r ∷ ws) b,
            used_size-append a us (used_part n ∷ free_part r ∷ ws) b,
          )
          (ground (arith, not_rest)))
        two_Owned

  cut-kept :
      (let m = mark_used (split t (stop a us) n (header_size + r)).mem (stop a us) in
          mark_prev_used m (next_phys m (stop a us)))
        y
      ≡ t.mem y
  cut-kept =
      finish-mem (split t (stop a us) n (header_size + r)) a us n (free_part r ∷ ws) false
        (split-IsOpen t a us n r ws o low whole low' whole') b y cut_Owned
      ∙ split-kept

-- `prepare_used` keeps every word in a used block.
pub prepare_used-mem :
    (t : Tlsf) (a : Ptr) (us : List Part) (k n : ℕ) (vs : List Part)
    → IsOpen t a us k true true vs
    → min_payload ≤ n
    → n % 16 ≡ 0
    → n ≤ k
    → (b y : Ptr) → b ≢ stop a us
    → Owned a (us ++ used_part k ∷ vs) b y
    → (prepare_used t (stop a us) n).1.mem y ≡ t.mem y
unfolding prepare_used
prepare_used-mem t a us k n vs o low whole fits b y ne w =
    let is_size = open-size t a us k vs true true o.lay o.tags in
    let left : sub_size k n ≡ k - n = omega (arith, small a us k vs o.lay) in
    rw (is_size, left)
      (elim (Bool-cases (leb 32 (k - n))) [
        | inl cuts ↦ rw cuts (
            let e : k ≡ n + header_size + (k - n - header_size) = ground arith in
            let e' : header_size + (k - n - header_size) ≡ k - n = ground arith in
            rw e' at (
              cut-kept t a us n (k - n - header_size) vs (rw e at o) low whole (ground arith)
                (omega (arith, o.lay.whole)) b y ne (rw e at w)))
        | inr keeps ↦ rw keeps (finish-mem t a us k vs true o b y w)
      ])

-- So does taking a free block out of its list before.
pub taken-mem :
    (t : Tlsf) (a : Ptr) (us : List Part) (k n : ℕ) (vs : List Part)
    → IsPool t a (us ++ free_part k ∷ vs)
    → min_payload ≤ n
    → n % 16 ≡ 0
    → n ≤ k
    → (b y : Ptr) → Owned a (us ++ free_part k ∷ vs) b y
    → (prepare_used (remove_free t (stop a us)) (stop a us) n).1.mem y ≡ t.mem y
taken-mem t a us k n vs v low whole fits b y w =
    let row : List Part = us ++ free_part k ∷ vs in
    let lay = IsPool-layout t a us (free_part k) vs v in
    let is_size = open-size t a us k vs true true lay (IsPool-tags t a us (free_part k) vs v) in
    let its_size = free_size-free a us k vs lay.front lay.back lay.even lay.whole in
    let has_size : free_size a row (stop a us) ≢ 0 = λ e. omega (arith, its_size, lay.low) in
    let ne : b ≢ stop a us =
      λ e. has_size (ap (free_size a row) (sym e) ∙ used-none a row b w.used) in
    prepare_used-mem (remove_free t (stop a us)) a us k n vs (remove_free-IsOpen t a us k vs v) low
      whole fits b y ne
      (Owned-same a row (us ++ used_part k ∷ vs) b y
        (used_size-other a us vs b ne (used_part k) (free_part k) refl) w)
    ∙ remove_free-Owned a row b y v.sized v.even w t v.listed (stop a us) has_size
        (is_size ∙ sym its_size)
