-- ===== src/Http.antt =====
-- d-lmdb-server/src/http: the HTTP server over the database handle.
pub mod Error
pub mod Response
pub mod Kv
pub mod Server
pub mod Health
