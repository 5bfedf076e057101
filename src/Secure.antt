-- ===== src/Secure.antt =====
-- secure: the keys that tokens are checked with.
pub mod KeyCache
