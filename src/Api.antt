-- ===== src/Api.antt =====
-- src/api.rs: the C interface over the allocators.
pub mod Global
pub mod Malloc
pub mod Free
pub mod Realloc
pub mod Routes
pub mod Small
pub mod Medium
pub mod Lock
pub mod Tests
