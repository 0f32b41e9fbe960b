-- ===== src/Application.antt =====
-- The containers of application/src.
pub mod SkipList
