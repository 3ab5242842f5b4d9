-- ===== src/Open/Storage.antt =====
-- The two environments are opened without touching the lock (d-lmdb/src/db.rs, d-lmdb/src/storage_engine.rs,
-- d-lmdb/src/state_machine.rs).
use d_lmdb.Base.{◌≡◌, refl}
use d_lmdb.Bytes.{Bytes, ascii}
use d_lmdb.Lmdb.{Lmdb}
use d_lmdb.Machine.Types.{LmdbStateMachine}
use d_lmdb.Machine.Lifecycle
use d_lmdb.Wal.{LmdbWal, Codec}
use d_lmdb.Config.{DLmdbConfig}
use d_lmdb.Host.{Host, IsHost, Step}
use d_lmdb.Open.{wal_map_size, Opened, storage_engine_new, state_machine_new, open_storage}
use d_lmdb.Open.Steps.{
  Keeps, bind-Keeps, dropping-Keeps, converted-Keeps, Gives, bind-Gives, dropping-Gives, lift-Gives,
}

module _ {W : Type 0} {L : Lmdb} (host : Host W L) (C : Codec) (is : IsHost host) where
  storage_engine_new-Keeps : (dir : Bytes) → Keeps host is (storage_engine_new host C dir)
  unfolding storage_engine_new
  storage_engine_new-Keeps dir =
      bind-Keeps host is _ _ (converted-Keeps host is _ _ (is.create_dir_keeps dir)) λ u.
        bind-Keeps host is _ _ (converted-Keeps host is _ _ (is.open_env_keeps wal_map_size 2 dir))
          λ env.
            dropping-Keeps host is _ _ (is.drop_env_keeps env)
              (converted-Keeps host is _ _ λ w q. refl)

  state_machine_new-Keeps :
      (dir : Bytes) (config : DLmdbConfig) → Keeps host is (state_machine_new host C dir config)
  unfolding state_machine_new
  state_machine_new-Keeps dir config =
      bind-Keeps host is _ _ (converted-Keeps host is _ _ (is.create_dir_keeps dir)) λ u.
        bind-Keeps host is _ _
          (converted-Keeps host is _ _ (is.open_env_keeps config.map_size_gb 3 dir))
          λ env.
            dropping-Keeps host is _ _ (is.drop_env_keeps env)
              (converted-Keeps host is _ _ λ w q. refl)

  pub open_storage-Keeps :
      (dir : Bytes) (config : DLmdbConfig)
      (start : LmdbWal L → LmdbStateMachine L → Step W host.Engine) (f : host.File)
      → ((wal : LmdbWal L) (m : LmdbStateMachine L) → Keeps host is (start wal m))
      → Keeps host is (open_storage host C dir config start f)
  unfolding open_storage
  open_storage-Keeps dir config start f starts =
      bind-Keeps host is _ _ (storage_engine_new-Keeps (host.join dir (ascii "raft"))) λ wal.
        dropping-Keeps host is _ _ (is.drop_env_keeps wal.env) (
          bind-Keeps host is _ _ (state_machine_new-Keeps (host.join dir (ascii "lmdb")) config)
            λ m.
              dropping-Keeps host is _ _ (is.drop_env_keeps (Lifecycle.drop m))
                (bind-Keeps host is _ _ (starts wal m) λ inner w q. refl))

  pub open_storage-data_dir_lock :
      (dir : Bytes) (config : DLmdbConfig)
      (start : LmdbWal L → LmdbStateMachine L → Step W host.Engine) (f : host.File)
      → Gives (λ (o : Opened host C). o.data_dir_lock ≡ f) (open_storage host C dir config start f)
  unfolding open_storage
  open_storage-data_dir_lock dir config start f = bind-Gives _ _ _ λ wal.
      dropping-Gives _ _ _
        (bind-Gives _ _ _ λ m. dropping-Gives _ _ _ (bind-Gives _ _ _ λ inner. lift-Gives _ _ refl))
