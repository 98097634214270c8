-- ===== src/Memory/Access.antt =====
-- A read after a write.
use ferrum_alloc.Base.{ℕ, ◌<◌, ◌≡◌, ◌≢◌, arith}
use ferrum_alloc.Memory.{Mem, update, read_u16, write_u16}

pub update_self {ℓ} : {A : Type ℓ} (f : ℕ → A) (i : ℕ) (v : A) → update f i v i ≡ v
unfolding update
update_self f i v = ground arith

pub update_ne {ℓ} : {A : Type ℓ} (f : ℕ → A) (i j : ℕ) (v : A) → j ≢ i → update f i v j ≡ f j
unfolding update
update_ne f i j v h = ground arith

pub read_u16-write_u16 : (m : Mem) (a v : ℕ) → v < 65536 → read_u16 (write_u16 m a v) a ≡ v
unfolding read_u16 write_u16 update
read_u16-write_u16 m a v h = ground arith

pub read_u16-write_u16_ne :
    (m : Mem) (a b v : ℕ) → b ≢ a → read_u16 (write_u16 m a v) b ≡ read_u16 m b
unfolding read_u16 write_u16 update
read_u16-write_u16_ne m a b v h = ground arith
