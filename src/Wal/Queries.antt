-- ===== src/Wal/Queries.antt =====
-- The queries of the log store in d-lmdb/src/storage_engine.rs that need no transaction.
use d_lmdb.Base.{ℕ, Bool, true}
use d_lmdb.Lmdb.{Lmdb}
use d_lmdb.Wal.{LmdbWal}

module _ {L : Lmdb} where
  unfoldable pub is_write_durable : LmdbWal L → Bool
  is_write_durable w = true

  unfoldable pub last_index : LmdbWal L → ℕ
  last_index w = w.last_index
