-- ===== src/Store.antt =====
-- store: values that are cached, and pools of objects.
pub mod Cache
pub mod Pool
