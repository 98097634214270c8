-- ===== src/Hooks/Blocks.antt =====
-- What the hooks of src/dllmain.rs do with a block above the slab sizes and below the huge ones, in every
-- state that a program reaches.
use ferrum_alloc.Tlsf.Allocator
use ferrum_alloc.Api.Global.{Global}
