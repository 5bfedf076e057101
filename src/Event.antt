-- ===== src/Event.antt =====
-- event: which events go where.
pub mod MultiMap
