-- ===== src/Hooks/BlockTests.antt =====
-- The hooks of src/dllmain.rs on a block of a program that has filled the pool.
use ferrum_alloc.Base.{ℕ, ◌+◌}
use ferrum_alloc.Memory.{Ptr, update}
use ferrum_alloc.Page.{Heap}
use ferrum_alloc.Arena
use ferrum_alloc.Arena.{Arena}
use ferrum_alloc.Tlsf.Allocator
use ferrum_alloc.Tlsf.Allocator.{Tlsf}
use ferrum_alloc.Api.Global.{Global, put_tlsf}
use ferrum_alloc.Api.Medium.{serving, tlsf_of}
use ferrum_alloc.Api.Medium.Tests.{first, arena, ready}

-- Two blocks fill the pool, and a third comes from the arena behind it.
abbrev one : Tlsf
one = (Allocator.alloc first 262000).1

abbrev two : Tlsf
two = (Allocator.alloc one 262000).1

-- The state with both blocks, and the one with the third.
abbrev state_two : Global
state_two = put_tlsf (put_tlsf ready one) two

abbrev behind : Ptr × Arena × Heap
behind = Arena.alloc arena state_two.heap 262000

abbrev state_three : Global
state_three = record (serving state_two behind.1 (tlsf_of state_two.heap two)) { heap = behind.2 }

abbrev held_two : Ptr → ℕ
held_two = update (update (λ _. 0) 8409104 262000) (8409104 + 262016) 262000

abbrev held_three : Ptr → ℕ
held_three = update held_two (8409104 + 524272) 262000
