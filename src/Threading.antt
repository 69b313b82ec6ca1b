-- ===== src/Threading.antt =====
-- hologine/core/threading.
pub mod EventQueue
pub mod Thread
