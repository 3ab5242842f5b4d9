-- ===== src/Open.antt =====
-- `DLmdb::open`, `open_from_file` and `close` of d-lmdb/src/db.rs, with d-lmdb/src/lock.rs and the
-- opening of the two environments in d-lmdb/src/storage_engine.rs and d-lmdb/src/state_machine.rs.
pub mod Steps
pub mod Storage
pub mod Acquire
pub mod Lock
pub mod Cluster
use d_lmdb.Base.{ℕ, ◌*◌, ◌++◌, Option, Result, ok, err}
use d_lmdb.Bytes.{Bytes, ascii}
use d_lmdb.Lmdb.{Lmdb}
use d_lmdb.Machine.Types.{EngineError, db_error, LmdbStateMachine}
use d_lmdb.Machine.Lifecycle
use d_lmdb.Wal
use d_lmdb.Wal.{LmdbWal, Codec}
use d_lmdb.Db.Types.{Error, engine, lmdb, io, path}
use d_lmdb.Db.Read.{DLmdb}
use d_lmdb.Config
use d_lmdb.Config.{DLmdbConfig, LmdbFileSection, path_text, from_file}
use d_lmdb.Host.{TryLockError, would_block, error, Host, Step, ◌>>=◌, lift, converted, dropping}

abbrev pub wal_map_size : ℕ
wal_map_size = 128 * 1024 * 1024

module _ {W : Type 0} {L : Lmdb} (host : Host W L) (C : Codec) where
  -- the handle with the values that it owns
  pub record Opened : Type 0 where
    pub db : DLmdb L
    pub inner : host.Engine
    pub data_dir_lock : host.File

  abbrev pub lock_error : Bytes → TryLockError → Error
  lock_error dir would_block =
      path (ascii "data_dir " ++ (host.shown dir ++ ascii " is already in use by another process"))
  lock_error dir (error e) = io e

  abbrev pub lock_path : Bytes → Bytes
  lock_path dir = host.join dir (ascii ".d-lmdb.lock")

  -- `DataDirLock::acquire`; a file that could not be locked is dropped
  unfoldable pub acquire : Bytes → Step W host.File
  acquire dir = do
    u ← converted io (host.create_dir_all dir)
    file ← converted io (host.open_file (lock_path dir))
    dropping (host.drop_file file)
        do v ← converted (lock_error dir) (host.try_lock file); lift (ok file)

  abbrev pub db_failed : L.HeedError → Error
  db_failed e = engine (db_error (L.to_string e))

  -- `LmdbStorageEngine::new`
  unfoldable pub storage_engine_new : Bytes → Step W (LmdbWal L)
  storage_engine_new raft_dir = do
    u ← converted (λ e. engine (db_error e)) (host.create_dir_all raft_dir)
    env ← converted db_failed (host.open_env wal_map_size 2 raft_dir)
    dropping (host.drop_env env) (converted engine (λ w. (w, Wal.new L C env)))

  -- `LmdbStateMachine::new`
  unfoldable pub state_machine_new : Bytes → DLmdbConfig → Step W (LmdbStateMachine L)
  state_machine_new data_dir config = do
    u ← converted io (host.create_dir_all data_dir)
    env ← converted (λ e. lmdb (L.to_string e)) (host.open_env config.map_size_gb 3 data_dir)
    dropping (host.drop_env env)
        (converted (λ e. lmdb (L.to_string e)) (λ w. (w, Lifecycle.new L env config.map_size_gb)))

  -- `Drop` of the state machine, then of its environment
  abbrev pub drop_state_machine : LmdbStateMachine L → W → W
  drop_state_machine m w = host.drop_env (Lifecycle.drop m) w

  abbrev pub opened : DLmdbConfig → host.File → LmdbStateMachine L → host.Engine → Opened
  opened config file m inner = record {
    db = record {
      state_machine = m;
      max_key_bytes = config.max_key_bytes;
      max_value_bytes = config.max_value_bytes;
    };
    inner = inner;
    data_dir_lock = file;
  }

  -- what follows the lock, in both functions; they differ in how the engine is started
  unfoldable pub open_storage :
      Bytes
      → DLmdbConfig
      → (LmdbWal L → LmdbStateMachine L → Step W host.Engine)
      → host.File
      → Step W Opened
  open_storage dir config start file = do
    wal ← storage_engine_new (host.join dir (ascii "raft"))
    dropping (host.drop_env wal.env) do
      m ← state_machine_new (host.join dir (ascii "lmdb")) config
      dropping (drop_state_machine m) do inner ← start wal m; lift (ok (opened config file m inner))

  -- the lock comes first, and is released where the rest fails
  unfoldable pub open_with :
      Bytes → DLmdbConfig → (LmdbWal L → LmdbStateMachine L → Step W host.Engine) → Step W Opened
  open_with dir config start = do
    file ← acquire dir
    dropping (host.drop_file file) (open_storage dir config start file)

  -- `RaftNodeConfig::new` and `start_node`
  abbrev pub start_default : Bytes → LmdbWal L → LmdbStateMachine L → Step W host.Engine
  start_default dir wal m = do
    raft_config ← converted engine host.raft_config
    converted engine (host.start_node dir wal m raft_config)

  unfoldable pub open_default : Bytes → Step W Opened
  open_default data_path = open_with data_path (Config.new data_path) (start_default data_path)

  -- `parse` is the parser of configuration files
  unfoldable pub open_from_file :
      (Bytes → Result LmdbFileSection Bytes) → Option Bytes → Step W Opened
  open_from_file parse config_path = do
    path_str ← lift (path_text config_path)
    config ← lift (from_file parse config_path)
    open_with config.data_dir config
        (λ wal m. converted engine (host.start_custom config.data_dir wal m path_str))

  -- `close` stops the engine and drops the handle, whether the stop succeeds or fails. The log store
  -- belongs to the engine, and the engine's own reference to the state machine ends with its stop.
  unfoldable pub close : Opened → Step W (Unit {0})
  close o w =
      let (w', r) = converted engine (host.stop o.inner) w in
      (host.drop_file o.data_dir_lock (drop_state_machine o.db.state_machine w'), r)
