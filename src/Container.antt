-- ===== src/Container.antt =====
-- hologine/core/container.
pub mod IntrusiveList
