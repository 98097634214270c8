-- ===== src/Tlsf/Pool/Shapes.antt =====
-- The boundary tags of src/tlsf.rs around a block that changes its size: one that swallows its
-- neighbour, and one that is cut in two.
use ferrum_alloc.Base.{ℕ, ◌+◌, ◌%◌, ◌≤◌, ◌≡◌, Bool, true, false, List, ◌∷◌, arith}
use ferrum_alloc.Memory.{Ptr, null, Mem, update}
use ferrum_alloc.Tlsf.Mapping.{header_size, min_payload}
use ferrum_alloc.Tlsf.Block.{prev_phys_size, size_and_flags, link_prev, link_next}
use ferrum_alloc.Tlsf.Block.Words.{word}
use ferrum_alloc.Tlsf.Pool.{
  Part, after, stop, last_bytes, last_free, head_bytes, head_free, Front, Phys,
}
use ferrum_alloc.Tlsf.Pool.Layout.{heads_bounds}
use ferrum_alloc.Tlsf.Pool.Phys.{Front-frame, Phys-relink, head-HasWord}
use ferrum_alloc.Tlsf.Pool.Tags.{IsLayout, HasTags, next, block-even, next-even, before, behind}

-- The block gets its size anew: its word and the link back to it are written.
module _ (m : Mem) (a : Ptr) (us : List Part) (n : ℕ) (vs : List Part)
    (lay : IsLayout a us n vs) where
  abbrev pub resized : (free : Bool) → Mem
  resized free =
      update (update m (size_and_flags (stop a us)) (word n free (last_free false us)))
        (prev_phys_size (next a us n vs lay)) n

  pub HasTags-resize :
      (free known : Bool) (prev : ℕ)
      → Front m a 0 false us
      → m (prev_phys_size (stop a us)) ≡ last_bytes 0 us
      → Phys m (next a us n vs lay) prev known vs
      → HasTags (resized free) a us n free known vs
  unfolding update
  HasTags-resize free known prev front own_prev back =
      let e = block-even a us n vs lay in
      let e' = next-even a us n vs lay in
      record {
        front =
            Front-frame m (resized free) a 0 false us front
              (λ x i. ground (arith, before a us n vs lay x i, e));
        own = ground arith;
        own_prev = ground (arith, e);
        back =
            Phys-relink m (resized free) (next a us n vs lay) prev n known known vs lay.back e' back
              (ground arith)
              (ground (arith, head-HasWord m (next a us n vs lay) prev known vs back, e, e'))
              (λ x i ne. ground (arith, behind a us n vs lay x i, e, e'));
      }

-- A block with the one behind it.
module _ (a : Ptr) (us : List Part) (n : ℕ) (v : Part) (ws : List Part) where
  abbrev pub joined : ℕ
  joined = n + header_size + v.bytes

  next_end : after (stop a us + (header_size + n)) v ≡ stop a us + (header_size + joined)
  next_end = omega arith

  pub IsLayout-join : IsLayout a us n (v ∷ ws) → IsLayout a us joined ws
  IsLayout-join lay = record {
    real = lay.real;
    even = lay.even;
    front = lay.front;
    low = omega (arith, lay.low);
    whole = omega (arith, lay.whole, lay.back.1);
    back = lay.back.2;
    bound = rw next_end at lay.bound;
  }

  pub IsLayout-cut :
      min_payload ≤ n
      → n % 16 ≡ 0
      → min_payload ≤ v.bytes
      → v.bytes % 16 ≡ 0
      → IsLayout a us joined ws
      → IsLayout a us n (v ∷ ws)
  IsLayout-cut low whole low' whole' lay = record {
    real = lay.real;
    even = lay.even;
    front = lay.front;
    low = low;
    whole = whole;
    back = (low', whole', lay.back);
    bound = rw next_end (lay.bound);
  }

  pub HasTags-join :
      (m : Mem) (free known : Bool)
      → IsLayout a us n (v ∷ ws)
      → (w : IsLayout a us joined ws) → HasTags m a us n free known (v ∷ ws)
      → HasTags (resized m a us joined ws w free) a us joined free v.free ws
  HasTags-join m free known lay w h =
      HasTags-resize m a us joined ws w free v.free v.bytes h.front h.own_prev
        (rw next_end at h.back.2)

  -- The joined block is cut in two: the rest becomes a free block, of which the next one knows.
  abbrev pub rest_block : Ptr
  rest_block = stop a us + (header_size + n)

  abbrev pub cut : Mem → (free : Bool) → Mem
  cut m free =
      let m1 = update m (size_and_flags (stop a us)) (word n free (last_free false us)) in
      let m2 =
        update (update m1 (prev_phys_size rest_block) n) (size_and_flags rest_block)
          (word v.bytes true false) in
      let m3 = update (update m2 (link_prev rest_block) null) (link_next rest_block) null in
      let m4 = update m3 (prev_phys_size (after rest_block v)) v.bytes in
      update m4 (size_and_flags (after rest_block v)) (word (head_bytes ws) (head_free ws) true)

  pub HasTags-cut :
      (m : Mem) (free known : Bool)
      → (v.free ≡ true)
      → (lay : IsLayout a us n (v ∷ ws)) → IsLayout a us joined ws
      → HasTags m a us joined free known ws
      → HasTags (cut m free) a us n free false (v ∷ ws)
  unfolding update
  HasTags-cut m free known vf lay w h =
      let e = block-even a us n (v ∷ ws) lay in
      let e' = next-even a us n (v ∷ ws) lay in
      let (low, whole, sized) = lay.back in
      let e2 : after rest_block v % 16 ≡ 0 = omega (arith, e') in
      record {
        front =
            Front-frame m (cut m free) a 0 false us h.front
              (λ x i. ground (arith, before a us n (v ∷ ws) lay x i, e));
        own = ground arith;
        own_prev = ground (arith, e, h.own_prev);
        back = (
          ground arith,
          ground arith,
          Phys-relink m (cut m free) (after rest_block v) joined v.bytes known v.free ws sized e2
              (rw next_end h.back) (ground arith) (ground arith)
              (λ x i ne. ground (arith, heads_bounds (after rest_block v) ws x sized e2 i)),
        );
      }
