-- ===== src/Nice.antt =====
-- The queue in nice/.
pub mod HQueue
