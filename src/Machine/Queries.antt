-- ===== src/Machine/Queries.antt =====
-- The operations of the state machine in d-lmdb/src/state_machine.rs that do nothing to it: `snapshot_metadata`,
-- and `save_hard_state`, `flush` and `flush_async`, as LMDB syncs where it commits.
use d_lmdb.Base.{Option, Result, ok}
use d_lmdb.Lmdb.{Lmdb}
use d_lmdb.Machine.Types.{SnapshotMetadata, EngineError, LmdbStateMachine}

module _ {L : Lmdb} where
  unfoldable pub snapshot_metadata : LmdbStateMachine L → Option SnapshotMetadata
  snapshot_metadata m = m.snapshot_meta

  unfoldable pub save_hard_state : LmdbStateMachine L → Result (Unit {0}) EngineError
  save_hard_state m = ok tt

  unfoldable pub flush : LmdbStateMachine L → Result (Unit {0}) EngineError
  flush m = ok tt

  unfoldable pub flush_async : LmdbStateMachine L → Result (Unit {0}) EngineError
  flush_async m = flush m
