-- ===== src/Db.antt =====
-- d-lmdb/src/db.rs and d-lmdb/src/error.rs: the database handle that applications use.
pub mod Types
pub mod Decode
pub mod Read
pub mod Write
