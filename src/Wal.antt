-- ===== src/Wal.antt =====
-- d-lmdb/src/storage_engine.rs: the Raft log and its metadata in an LMDB environment of their own.
-- Entries are stored under their index in eight big-endian bytes.
pub mod Tail
pub mod Last
pub mod Reach
pub mod Restart
pub mod Log
pub mod Purge
pub mod Fetch
pub mod Meta
pub mod Queries
use Prim.Native.Nat.{max}
use d_lmdb.Base.{
  ℕ, ◌+◌, ◌-◌, ◌^◌, ◌==◌, Bool, true, false, Option, some, none, List, [], ◌∷◌, ◌++◌, Result, ok,
  err, ◌>>=◌, map_err, map_ok, ltb, length, if◌then◌else◌,
}
use d_lmdb.Bytes.{Bytes, ascii}
use d_lmdb.Bytes.Word.{to_be, from_be}
use d_lmdb.Store.{Entries, included, excluded, unbounded}
use d_lmdb.Lmdb.{Lmdb, DbName, log, meta}
use d_lmdb.Machine.Types.{LogId, EngineError, db_error, serialization_error, bincode_error}

-- What the file uses of `prost` and `bincode`: the encodings of log entries, log ids and the hard
-- state, whose decoders may fail.
pub record Codec : Type 1 where
  pub Entry : Type 0
  pub index : Entry → ℕ
  pub encode_entry : Entry → Bytes
  pub decode_entry : Bytes → Result Entry Bytes
  pub encode_id : LogId → Bytes
  pub decode_id : Bytes → Result LogId Bytes
  pub HardState : Type 0
  pub serialize : HardState → Result Bytes Bytes
  pub deserialize : Bytes → Result HardState Bytes

pub record LmdbWal (L : Lmdb) : Type 0 where
  pub env : L.Env
  pub last_index : ℕ

abbrev pub u64_max : ℕ
u64_max = 2 ^ 64 - 1

abbrev pub key_hard_state : Bytes
key_hard_state = ascii "hard_state"

abbrev pub key_purge_boundary : Bytes
key_purge_boundary = ascii "purge_boundary"

abbrev pub db_err {ℓ} : (L : Lmdb) {A : Type ℓ} → Result A L.HeedError → Result A EngineError
db_err L r = map_err (λ e. db_error (L.to_string e)) r

-- the last key as an index; one of another length than 8 counts as none
abbrev pub index_of : Option (Bytes × Bytes) → ℕ
index_of (some (k, v)) = if length k == 8 then from_be k else 0
index_of none = 0

-- `saturating_add(1)`
abbrev pub saturating_suc : ℕ → ℕ
saturating_suc n = if ltb n u64_max then n + 1 else u64_max

module _ (L : Lmdb) (C : Codec) where
  -- `for entry in &entries`, with the highest index so far
  unfoldable pub put_entries : L.Txn → List C.Entry → ℕ → Result (L.Txn × ℕ) EngineError
  put_entries t [] max_index = ok (t, max_index)
  put_entries t (e ∷ es) max_index = do
    t' ← db_err L (L.put t log (to_be 8 (C.index e)) (C.encode_entry e))
    put_entries t' es (max max_index (C.index e))

  unfoldable pub write_entries : L.Env → List C.Entry → Result (L.Env × ℕ) EngineError
  write_entries env entries = do
    t ← db_err L (L.write_txn env)
    (t', max_index) ← put_entries t entries 0
    env' ← db_err L (L.commit env t')
    ok (env', max_index)

  abbrev pub persisted :
      LmdbWal L → Result (L.Env × ℕ) EngineError → LmdbWal L × Result (Unit {0}) EngineError
  persisted w (ok (env, max_index)) =
      (record { env = env; last_index = max w.last_index max_index }, ok tt)
  persisted w (err e) = (w, err e)

  unfoldable pub persist_entries :
      LmdbWal L → List C.Entry → LmdbWal L × Result (Unit {0}) EngineError
  persist_entries w [] = (w, ok tt)
  persist_entries w (e ∷ es) = persisted w (write_entries w.env (e ∷ es))

  abbrev pub decoded : Option Bytes → Result (Option C.Entry) EngineError
  decoded (some bytes) = map_err serialization_error (map_ok some (C.decode_entry bytes))
  decoded none = ok none

  unfoldable pub entry : LmdbWal L → ℕ → Result (Option C.Entry) EngineError
  entry w index = do
    t ← db_err L (L.read_txn w.env)
    found ← db_err L (L.get t log (to_be 8 index))
    decoded found

  -- the loop of `get_entries`, up to `end`
  unfoldable pub collect :
      ℕ
      → List (Result (Bytes × Bytes) L.HeedError)
      → List C.Entry
      → Result (List C.Entry) EngineError
  collect end [] entries = ok entries
  collect end (item ∷ items) entries = elim (db_err L item) [
    | err e ↦ err e
    | ok (k, v) ↦ elim (length k == 8) [
      | false ↦ err (db_error (ascii "invalid log key length"))
      | true ↦ elim (ltb end (from_be k)) [
        | true ↦ ok entries
        | false ↦ elim (C.decode_entry v) [
          | err e ↦ err (serialization_error e)
          | ok e ↦ collect end items (entries ++ (e ∷ []))
        ]
      ]
    ]
  ]

  unfoldable pub get_entries : LmdbWal L → ℕ → ℕ → Result (List C.Entry) EngineError
  get_entries w start end = do
    t ← db_err L (L.read_txn w.env)
    items ← db_err L (L.range t log (included (to_be 8 start)) unbounded)
    collect end items []

  abbrev pub with_log :
      LmdbWal L → Result L.Env EngineError → LmdbWal L × Result (Unit {0}) EngineError
  with_log w (ok env) = (record w { env = env }, ok tt)
  with_log w (err e) = (w, err e)

  unfoldable pub purge_log : L.Env → LogId → Result L.Env EngineError
  purge_log env cutoff = do
    t ← db_err L (L.write_txn env)
    t1 ← db_err L (
        L.delete_range t log (included (to_be 8 0))
          (excluded (to_be 8 (saturating_suc cutoff.index))))
    t2 ← db_err L (L.put t1 meta key_purge_boundary (C.encode_id cutoff))
    db_err L (L.commit env t2)

  -- `last_index` stays
  unfoldable pub purge : LmdbWal L → LogId → LmdbWal L × Result (Unit {0}) EngineError
  purge w cutoff = with_log w (purge_log w.env cutoff)

  unfoldable pub truncate_log : L.Env → ℕ → Result (L.Env × ℕ) EngineError
  truncate_log env from_index = do
    t ← db_err L (L.write_txn env)
    t1 ← db_err L (L.delete_range t log (included (to_be 8 from_index)) unbounded)
    tail ← db_err L (L.last t1 log)
    env' ← db_err L (L.commit env t1)
    ok (env', index_of tail)

  abbrev pub truncated :
      LmdbWal L → Result (L.Env × ℕ) EngineError → LmdbWal L × Result (Unit {0}) EngineError
  truncated w (ok (env, new_last)) = (record { env = env; last_index = new_last }, ok tt)
  truncated w (err e) = (w, err e)

  unfoldable pub truncate : LmdbWal L → ℕ → LmdbWal L × Result (Unit {0}) EngineError
  truncate w from_index = truncated w (truncate_log w.env from_index)

  abbrev pub decoded_id : Option Bytes → Result (Option LogId) EngineError
  decoded_id (some bytes) = map_err serialization_error (map_ok some (C.decode_id bytes))
  decoded_id none = ok none

  unfoldable pub load_purge_boundary : LmdbWal L → Result (Option LogId) EngineError
  load_purge_boundary w = do
    t ← db_err L (L.read_txn w.env)
    found ← db_err L (L.get t meta key_purge_boundary)
    decoded_id found

  unfoldable pub clear_log : L.Env → Result L.Env EngineError
  clear_log env = do
    t ← db_err L (L.write_txn env)
    t' ← db_err L (L.clear t log)
    db_err L (L.commit env t')

  abbrev pub was_reset :
      LmdbWal L → Result L.Env EngineError → LmdbWal L × Result (Unit {0}) EngineError
  was_reset w (ok env) = (record { env = env; last_index = 0 }, ok tt)
  was_reset w (err e) = (w, err e)

  unfoldable pub reset : LmdbWal L → LmdbWal L × Result (Unit {0}) EngineError
  reset w = was_reset w (clear_log w.env)

  unfoldable pub write_hard_state : L.Env → C.HardState → Result L.Env EngineError
  write_hard_state env state = do
    serialized ← map_err bincode_error (C.serialize state)
    t ← db_err L (L.write_txn env)
    t' ← db_err L (L.put t meta key_hard_state serialized)
    db_err L (L.commit env t')

  unfoldable pub save_hard_state :
      LmdbWal L → C.HardState → LmdbWal L × Result (Unit {0}) EngineError
  save_hard_state w state = with_log w (write_hard_state w.env state)

  abbrev pub decoded_state : Option Bytes → Result (Option C.HardState) EngineError
  decoded_state (some bytes) = map_err bincode_error (map_ok some (C.deserialize bytes))
  decoded_state none = ok none

  unfoldable pub load_hard_state : LmdbWal L → Result (Option C.HardState) EngineError
  load_hard_state w = do
    t ← db_err L (L.read_txn w.env)
    found ← db_err L (L.get t meta key_hard_state)
    decoded_state found

  -- `LmdbStorageEngine::new`, from the environment that was opened
  unfoldable pub new : L.Env → Result (LmdbWal L) EngineError
  new env = do
    t ← db_err L (L.write_txn env)
    t1 ← db_err L (L.create_database t log)
    t2 ← db_err L (L.create_database t1 meta)
    tail ← db_err L (L.last t2 log)
    env' ← db_err L (L.commit env t2)
    ok (record { env = env'; last_index = index_of tail })
