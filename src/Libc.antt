-- ===== src/Libc.antt =====
-- The data structures of the tracing library in libc/.
pub mod HashMap
pub mod ConcurrentQueue
