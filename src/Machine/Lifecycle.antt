-- ===== src/Machine/Lifecycle.antt =====
-- Opening, closing and resetting the state machine of d-lmdb/src/state_machine.rs, the persistence
-- of the last applied entry, and snapshots.
pub mod Recovery
pub mod Replay
pub mod Snapshots
use d_lmdb.Base.{
  ℕ, ◌==◌, Bool, true, false, Option, some, none, List, [], ◌∷◌, Result, ok, err, ◌>>=◌, map_err,
  length, replicate, if◌then◌else◌,
}
use d_lmdb.Bytes.{Bytes, ascii}
use d_lmdb.Bytes.Word.{to_le, from_le}
use d_lmdb.Store.{Entries, unbounded}
use d_lmdb.Lmdb.{Lmdb, DbName, kv, meta, internal}
use d_lmdb.Machine.Apply.{advance}
use d_lmdb.Machine.Types.{
  LogId, SnapshotMetadata, EngineError, fatal, LmdbStateMachine, last_applied_index_key,
  last_applied_term_key, lmdb_err, fatal_err, last_applied, update_last_applied, with_env,
}

-- `try_into().unwrap_or([0u8; 8])`: bytes of another length read as 0
unfoldable pub u64_from_bytes : Bytes → ℕ
u64_from_bytes b = if length b == 8 then from_le b else 0

-- `.map(u64_from_bytes).unwrap_or(0)`
abbrev pub u64_or_zero : Option Bytes → ℕ
u64_or_zero (some b) = u64_from_bytes b
u64_or_zero none = 0

-- `ok_or_else`
abbrev pub present {ℓ} : {A : Type ℓ} → EngineError → Option A → Result A EngineError
present e (some a) = ok a
present e none = err e

-- What `spawn_blocking(..).await` gives: the task's result, or a `JoinError` where the task
-- panicked or was cancelled, in which case its transaction has been dropped.
pub data Joined : Type 0 where
  finished : Joined
  join_error : Bytes → Joined

-- the checksum is 32 zero bytes
abbrev pub zero_checksum : Bytes
zero_checksum = replicate 32 0

abbrev joined {ℓ} : {A : Type ℓ} → Joined → Result A EngineError → Result A EngineError
joined finished r = r
joined (join_error e) r = err (fatal e)

module _ (L : Lmdb) where
  -- what `new` reads in its write transaction: the transaction, the index and the term
  unfoldable pub open_databases : L.Txn → Result (L.Txn × ℕ × ℕ) L.HeedError
  open_databases t = do
    t1 ← L.create_database t kv
    t2 ← L.create_database t1 meta
    t3 ← L.create_database t2 internal
    index ← L.get t3 meta last_applied_index_key
    term ← L.get t3 meta last_applied_term_key
    ok (t3, u64_or_zero index, u64_or_zero term)

  -- `new`, from the environment that `EnvOpenOptions::open` gave
  unfoldable pub new : L.Env → ℕ → Result (LmdbStateMachine L) L.HeedError
  new env map_size = do
    t ← L.write_txn env
    (t', index, term) ← open_databases t
    env' ← L.commit env t'
    ok (record {
      env = env';
      running = true;
      last_applied_index = index;
      last_applied_term = term;
      entry_terms = [];
      snapshot_meta = none;
      map_size = map_size;
    })

  -- the two `meta_db.put` calls
  unfoldable pub put_last_applied : L.Txn → LogId → Result L.Txn L.HeedError
  put_last_applied t id = do
    t1 ← L.put t meta last_applied_index_key (to_le 8 id.index)
    L.put t1 meta last_applied_term_key (to_le 8 id.term)

  -- the transaction of `persist_last_applied`
  unfoldable pub write_last_applied : L.Env → LogId → Result L.Env EngineError
  write_last_applied env id = do
    t ← lmdb_err L (L.write_txn env)
    t' ← lmdb_err L (put_last_applied t id)
    lmdb_err L (L.commit env t')

  abbrev pub put_last_included : L.Txn → Option LogId → Result L.Txn L.HeedError
  put_last_included t none = ok t
  put_last_included t (some id) = put_last_applied t id

  -- `for item in snap_kv.iter(..)`
  unfoldable pub copy_items :
      L.Txn → List (Result (Bytes × Bytes) L.HeedError) → Result L.Txn L.HeedError
  copy_items t [] = ok t
  copy_items t (item ∷ items) = do (k, v) ← item; t' ← L.put t kv k v; copy_items t' items

  -- the transaction of `reset`
  unfoldable pub clear_all : L.Env → Result L.Env EngineError
  clear_all env = do
    t ← lmdb_err L (L.write_txn env)
    t1 ← lmdb_err L (L.clear t kv)
    t2 ← lmdb_err L (L.clear t1 meta)
    t3 ← lmdb_err L (L.clear t2 internal)
    lmdb_err L (L.commit env t3)

  -- `opened` is what opening the environment at `snapshot_path` gave
  unfoldable pub restore_blocking :
      L.Env → SnapshotMetadata → Result L.Env L.HeedError → Result L.Env EngineError
  restore_blocking env metadata opened = do
    snap_env ← fatal_err L opened
    snap_rtxn ← fatal_err L (L.read_txn snap_env)
    found ← fatal_err L (L.open_database snap_rtxn kv)
    snap_kv ← present (fatal (ascii "snapshot missing kv database")) found
    wtxn ← fatal_err L (L.write_txn env)
    cleared ← fatal_err L (L.clear wtxn kv)
    items ← fatal_err L (L.range snap_rtxn snap_kv unbounded unbounded)
    copied ← fatal_err L (copy_items cleared items)
    marked ← fatal_err L (put_last_included copied metadata.last_included)
    fatal_err L (L.commit env marked)

module _ {L : Lmdb} where
  abbrev pub set_running : Bool → LmdbStateMachine L → LmdbStateMachine L
  set_running b m = record m { running = b }

  unfoldable pub start : LmdbStateMachine L → LmdbStateMachine L
  start m = set_running true m

  unfoldable pub stop : LmdbStateMachine L → LmdbStateMachine L
  stop m = set_running false m

  unfoldable pub is_running : LmdbStateMachine L → Bool
  is_running m = m.running

  abbrev pub persisted :
      LmdbStateMachine L
      → LogId
      → Result L.Env EngineError
      → LmdbStateMachine L × Result (Unit {0}) EngineError
  persisted m id (ok env) = (update_last_applied id (record m { env = env }), ok tt)
  persisted m id (err e) = (m, err e)

  unfoldable pub persist_last_applied :
      LmdbStateMachine L → LogId → LmdbStateMachine L × Result (Unit {0}) EngineError
  persist_last_applied m id = persisted m id (write_last_applied L m.env id)

  -- `Drop`: an error is only logged; what stays behind is the environment
  unfoldable pub drop : LmdbStateMachine L → L.Env
  drop m = (persist_last_applied m (last_applied m)).0.env

  unfoldable pub update_last_snapshot_metadata :
      LmdbStateMachine L → SnapshotMetadata → LmdbStateMachine L
  update_last_snapshot_metadata m metadata = record m { snapshot_meta = some metadata }

  -- nothing is written to disk
  unfoldable pub persist_last_snapshot_metadata :
      LmdbStateMachine L → SnapshotMetadata → LmdbStateMachine L
  unfolding update_last_snapshot_metadata
  persist_last_snapshot_metadata m metadata = update_last_snapshot_metadata m metadata

  abbrev pub restored :
      LmdbStateMachine L
      → SnapshotMetadata
      → Result L.Env EngineError
      → LmdbStateMachine L × Result (Unit {0}) EngineError
  restored m metadata (ok env) =
      let m1 = advance metadata.last_included (record m { env = env }) in
      let m2 = update_last_snapshot_metadata m1 metadata in
      (set_running true (record m2 { entry_terms = [] }), ok tt)
  restored m metadata (err e) = (set_running true m, err e)

  unfoldable pub apply_snapshot_from_file :
      LmdbStateMachine L
      → SnapshotMetadata
      → Result L.Env L.HeedError
      → Joined
      → LmdbStateMachine L × Result (Unit {0}) EngineError
  unfolding update_last_snapshot_metadata
  apply_snapshot_from_file m metadata opened finished =
      restored (set_running false m) metadata (restore_blocking L m.env metadata opened)
  apply_snapshot_from_file m metadata opened (join_error e) = (set_running false m, err (fatal e))

  abbrev pub generated :
      LmdbStateMachine L
      → LogId
      → Result L.Env EngineError
      → LmdbStateMachine L × Result (Bytes × L.Env) EngineError
  generated m last_included (ok file) =
      let metadata : SnapshotMetadata = record {
        last_included = some last_included;
        checksum = zero_checksum;
      } in
      (persist_last_snapshot_metadata m metadata, ok (zero_checksum, file))
  generated m last_included (err e) = (m, err e)

  -- `created` is what `create_dir_all` gave. Beside the checksum stands the file that was written.
  unfoldable pub generate_snapshot_data :
      LmdbStateMachine L
      → Result (Unit {0}) Bytes
      → LogId
      → Joined
      → LmdbStateMachine L × Result (Bytes × L.Env) EngineError
  unfolding persist_last_snapshot_metadata
  generate_snapshot_data m created last_included task =
      generated m last_included
        do u ← map_err fatal created; joined task (fatal_err L (L.copy_to_file m.env))

  abbrev pub was_reset :
      LmdbStateMachine L
      → Result L.Env EngineError
      → LmdbStateMachine L × Result (Unit {0}) EngineError
  was_reset m (ok env) = (
    record m {
      env = env;
      last_applied_index = 0;
      last_applied_term = 0;
      snapshot_meta = none;
      entry_terms = [];
    },
    ok tt,
  )
  was_reset m (err e) = (m, err e)

  unfoldable pub reset : LmdbStateMachine L → LmdbStateMachine L × Result (Unit {0}) EngineError
  reset m = was_reset m (clear_all L m.env)
