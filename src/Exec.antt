-- ===== src/Exec.antt =====
-- What the two execution crates do alike.
pub mod Http
pub mod Urls
pub mod Draining
pub mod Transport
