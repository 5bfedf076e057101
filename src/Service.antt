-- ===== src/Service.antt =====
-- service: how a key finds the instance that serves it.
pub mod Accessor
pub mod Updatable
pub mod Layered
pub mod Monitor
