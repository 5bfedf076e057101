-- ===== src/Xhttp.antt =====
-- xhttp: helpers for HTTP servers.
pub mod Gate
pub mod Fanout
pub mod Retry
