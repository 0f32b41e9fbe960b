-- ===== src/Memory.antt =====
-- The dynamic memory pool of memory/: its statistics, events, buffers, allocators and the pool.
pub mod Types
pub mod Stat
pub mod Event
pub mod Heap
pub mod BufSet
pub mod Allocator
pub mod Pool
pub mod Status
