-- ===== src/Host.antt =====
-- What `DLmdb::open` uses of its host: the file system and its locks, LMDB environments, and the
-- engine of `d_engine`. Its operations change the state of the world and may fail.
use d_lmdb.Base.{ℕ, ◌≡◌, ◌≢◌, ◌==◌, Option, some, none, Result, ok, err, map_err, if◌then◌else◌}
use d_lmdb.Bytes.{Bytes, bytes_eq}
use d_lmdb.Lmdb.{Lmdb}
use d_lmdb.Machine.Types.{EngineError, LmdbStateMachine}
use d_lmdb.Wal.{LmdbWal}
use d_lmdb.Db.Types.{Error}

-- `std::fs::TryLockError`
pub data TryLockError : Type 0 where
  would_block : TryLockError
  error : Bytes → TryLockError

-- I/O errors are given by their texts, and `shown` is `Path::display`. Dropping a file releases the
-- lock that it holds. An environment is opened with a map size and a number of databases.
pub record Host (W : Type 0) (L : Lmdb) : Type 1 where
  pub File : Type 0
  pub Engine : Type 0
  pub RaftNodeConfig : Type 0
  pub join : Bytes → Bytes → Bytes
  pub shown : Bytes → Bytes
  pub create_dir_all : Bytes → W → W × Result (Unit {0}) Bytes
  pub open_file : Bytes → W → W × Result File Bytes
  pub try_lock : File → W → W × Result (Unit {0}) TryLockError
  pub drop_file : File → W → W
  pub open_env : ℕ → ℕ → Bytes → W → W × Result L.Env L.HeedError
  pub drop_env : L.Env → W → W
  pub raft_config : W → W × Result RaftNodeConfig EngineError
  pub start_node :
      Bytes → LmdbWal L → LmdbStateMachine L → RaftNodeConfig → W → W × Result Engine EngineError
  pub start_custom :
      Bytes → LmdbWal L → LmdbStateMachine L → Bytes → W → W × Result Engine EngineError
  pub stop : Engine → W → W × Result (Unit {0}) EngineError

-- the holder of a lock after the file `i` was dropped
abbrev pub released : ℕ → Option ℕ → Option ℕ
released i none = none
released i (some j) = if i == j then none else some j

-- The documented behaviour of locks: an open file has an identity of its own, at most one holds the
-- lock of a path, and nothing else of what the host offers changes the holders. Only the locks that
-- are taken by `try_lock` count; those that the engine takes for itself are on files of its own.
pub record IsHost {W : Type 0} {L : Lmdb} (host : Host W L) : Type 0 where
  pub holder : W → Bytes → Option ℕ
  pub id_of : host.File → ℕ
  pub path_of : host.File → Bytes
  pub open_path :
      (p : Bytes) (w : W) {f : host.File} → (host.open_file p w).1 ≡ ok f → path_of f ≡ p
  pub open_fresh :
      (p q : Bytes) (w : W) {f : host.File}
      → (host.open_file p w).1 ≡ ok f
      → holder w q ≢ some (id_of f)
  pub lock_free :
      (f : host.File) (w : W) → (host.try_lock f w).1 ≡ ok tt → holder w (path_of f) ≡ none
  pub lock_held :
      (f : host.File) (w : W) (q : Bytes)
      → (host.try_lock f w).1 ≡ ok tt
      → holder (host.try_lock f w).0 q
        ≡ (if bytes_eq q (path_of f) then some (id_of f) else holder w q)
  pub lock_refused :
      (f : host.File) (w : W) (q : Bytes) {e : TryLockError}
      → (host.try_lock f w).1 ≡ err e
      → holder (host.try_lock f w).0 q ≡ holder w q
  pub drop_releases :
      (f : host.File) (w : W) (q : Bytes)
      → holder (host.drop_file f w) q ≡ released (id_of f) (holder w q)
  pub create_dir_keeps :
      (p : Bytes) (w : W) (q : Bytes) → holder (host.create_dir_all p w).0 q ≡ holder w q
  pub open_file_keeps :
      (p : Bytes) (w : W) (q : Bytes) → holder (host.open_file p w).0 q ≡ holder w q
  pub open_env_keeps :
      (size dbs : ℕ) (p : Bytes) (w : W) (q : Bytes)
      → holder (host.open_env size dbs p w).0 q ≡ holder w q
  pub drop_env_keeps :
      (env : L.Env) (w : W) (q : Bytes) → holder (host.drop_env env w) q ≡ holder w q
  pub raft_config_keeps : (w : W) (q : Bytes) → holder (host.raft_config w).0 q ≡ holder w q
  pub start_node_keeps :
      (p : Bytes) (wal : LmdbWal L) (m : LmdbStateMachine L) (rc : host.RaftNodeConfig) (w : W)
      (q : Bytes)
      → holder (host.start_node p wal m rc w).0 q ≡ holder w q
  pub start_custom_keeps :
      (p : Bytes) (wal : LmdbWal L) (m : LmdbStateMachine L) (config : Bytes) (w : W) (q : Bytes)
      → holder (host.start_custom p wal m config w).0 q ≡ holder w q
  pub stop_keeps : (e : host.Engine) (w : W) (q : Bytes) → holder (host.stop e w).0 q ≡ holder w q

-- A step changes the world and may fail.
abbrev pub Step : Type 0 → Type 0 → Type 0
Step W A = W → W × Result A Error

abbrev pub after : {W A B : Type 0} → W × Result A Error → (A → Step W B) → W × Result B Error
after (w, ok a) next = next a w
after (w, err e) next = (w, err e)

infixl 5 ◌>>=◌
unfoldable pub ◌>>=◌ : {W A B : Type 0} → Step W A → (A → Step W B) → Step W B
◌>>=◌ first next w = after (first w) next

-- a result that needs no world
abbrev pub lift : {W A : Type 0} → Result A Error → Step W A
lift r w = (w, r)

-- an operation, with its error converted by `?` or `map_err`
unfoldable pub converted : {W A E : Type 0} → (E → Error) → (W → W × Result A E) → Step W A
converted f m w = let (w', r) = m w in (w', map_err f r)

abbrev pub cleaned : {W A : Type 0} → (W → W) → W × Result A Error → W × Result A Error
cleaned cleanup (w, ok a) = (w, ok a)
cleaned cleanup (w, err e) = (cleanup w, err e)

-- a value in scope is dropped where the rest fails
unfoldable pub dropping : {W A : Type 0} → (W → W) → Step W A → Step W A
dropping cleanup m w = cleaned cleanup (m w)
