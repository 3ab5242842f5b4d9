-- ===== src/Machine/Types.antt =====
-- The data of d-lmdb/src/state_machine.rs. The types of `d_engine` are given by the constructors
-- and fields that the source names.
use d_lmdb.Base.{ℕ, Bool, Option, List, Result, map_err, ok, err}
use d_lmdb.Bytes.{Bytes, ascii}
use d_lmdb.Store.{Entries}
use d_lmdb.Lmdb.{Lmdb}

pub record LogId : Type 0 where
  pub index : ℕ
  pub term : ℕ

pub data BatchOp : Type 0 where
  insert : Bytes → Bytes → BatchOp
  delete : Bytes → BatchOp

pub data Command : Type 0 where
  insert : Bytes → Bytes → ℕ → Command
  delete : Bytes → Command
  compare_and_swap : Bytes → Option Bytes → Bytes → Command
  batch : List BatchOp → Command
  noop : Command

pub record ApplyEntry : Type 0 where
  pub index : ℕ
  pub term : ℕ
  pub command : Command

pub data ApplyResult : Type 0 where
  success failure : ℕ → ApplyResult

pub record SnapshotMetadata : Type 0 where
  pub last_included : Option LogId
  pub checksum : Bytes

pub record ScanResult : Type 0 where
  pub entries : Entries
  pub revision : ℕ

-- `d_engine::Error`, as the source builds it
pub data EngineError : Type 0 where
  fatal state_machine_error db_error serialization_error bincode_error : Bytes → EngineError

pub record LmdbStateMachine (L : Lmdb) : Type 0 where
  pub env : L.Env
  pub running : Bool
  pub last_applied_index : ℕ
  pub last_applied_term : ℕ
  pub entry_terms : List (ℕ × ℕ)
  pub snapshot_meta : Option SnapshotMetadata
  pub map_size : ℕ

abbrev pub last_applied_index_key : Bytes
last_applied_index_key = ascii "last_applied_index"

abbrev pub last_applied_term_key : Bytes
last_applied_term_key = ascii "last_applied_term"

-- `.map_err(lmdb_err)`
abbrev pub lmdb_err {ℓ} : (L : Lmdb) {A : Type ℓ} → Result A L.HeedError → Result A EngineError
lmdb_err L r = map_err (λ e. state_machine_error (L.to_string e)) r

-- `.map_err(|e| EngineError::Fatal(e.to_string()))`
abbrev pub fatal_err {ℓ} : (L : Lmdb) {A : Type ℓ} → Result A L.HeedError → Result A EngineError
fatal_err L r = map_err (λ e. fatal (L.to_string e)) r

module _ {L : Lmdb} where
  abbrev pub last_applied : LmdbStateMachine L → LogId
  last_applied m = record { index = m.last_applied_index; term = m.last_applied_term }

  abbrev pub update_last_applied : LogId → LmdbStateMachine L → LmdbStateMachine L
  update_last_applied id m = record m { last_applied_index = id.index; last_applied_term = id.term }

  -- A method that commits a transaction: on success the environment is the committed one, on an
  -- error the transaction is dropped, which leaves the environment as it was.
  abbrev pub with_env :
      LmdbStateMachine L
      → Result L.Env EngineError
      → LmdbStateMachine L × Result (Unit {0}) EngineError
  with_env m (ok env) = (record m { env = env }, ok tt)
  with_env m (err e) = (m, err e)
