-- ===== src/Lmdb.antt =====
-- What d-lmdb uses of LMDB through the `heed` crate, which is not part of the repository: an
-- interface of operations, each of which may fail, and the documented behaviour of those that
-- succeed. A database handle is the name under which it was created.
pub mod Memory
use d_lmdb.Base.{
  ℕ, ◌≡◌, Bool, true, false, Option, some, none, List, [], ◌∷◌, Result, ok, err, length,
  if◌then◌else◌,
}
use d_lmdb.Bytes.{Bytes}
use d_lmdb.Store.{Entries, Bound, unbounded, lookup, insert, erase, within, without}
use d_lmdb.Store
use d_lmdb.Store.Sorted.{IsSorted}

-- DB_KV, DB_META and DB_INTERNAL of the state machine, DB_LOG and DB_META of the log
pub data DbName : Type 0 where
  kv meta internal log : DbName

abbrev pub db_eq : DbName → DbName → Bool
db_eq kv kv = true
db_eq meta meta = true
db_eq internal internal = true
db_eq log log = true
db_eq _ _ = false

-- `Env`, `RoTxn` and `RwTxn` (one type: a read transaction is one that is never committed),
-- `heed::Error` with its text, and the operations. An iterator yields results.
pub record Lmdb : Type 1 where
  pub Env : Type 0
  pub Txn : Type 0
  pub HeedError : Type 0
  pub to_string : HeedError → Bytes
  pub read_txn : Env → Result Txn HeedError
  pub write_txn : Env → Result Txn HeedError
  pub commit : Env → Txn → Result Env HeedError
  pub create_database : Txn → DbName → Result Txn HeedError
  pub open_database : Txn → DbName → Result (Option DbName) HeedError
  pub get : Txn → DbName → Bytes → Result (Option Bytes) HeedError
  pub put : Txn → DbName → Bytes → Bytes → Result Txn HeedError
  pub delete : Txn → DbName → Bytes → Result Txn HeedError
  pub clear : Txn → DbName → Result Txn HeedError
  pub delete_range : Txn → DbName → Bound → Bound → Result Txn HeedError
  pub range :
      Txn → DbName → Bound → Bound → Result (List (Result (Bytes × Bytes) HeedError)) HeedError
  pub last : Txn → DbName → Result (Option (Bytes × Bytes)) HeedError
  pub len : Txn → DbName → Result ℕ HeedError
  pub copy_to_file : Env → Result Env HeedError
  -- what a transaction sees, and what is committed
  pub view : Txn → DbName → Entries
  pub contents : Env → DbName → Entries

-- An iterator over `xs` yields its entries in order, until it ends or fails.
abbrev pub Reads {κ} : {E : Type κ} → List (Result (Bytes × Bytes) E) → Entries → Type 0
Reads [] [] = Unit
Reads [] (x ∷ xs) = ⊥
Reads (ok e ∷ items) [] = ⊥
Reads (ok e ∷ items) (x ∷ xs) = (e ≡ x) × Reads items xs
Reads (err e ∷ items) xs = Unit

-- The database `d` reads `m` after the operation, and the others read as before.
abbrev pub Changes : (DbName → Entries) → DbName → Entries → (DbName → Entries) → Type 0
Changes before d m after = (n : DbName) → after n ≡ (if db_eq n d then m else before n)

-- The documented behaviour that d-lmdb relies on.
pub record IsLawful (L : Lmdb) : Type 0 where
  pub contents-IsSorted : (e : L.Env) (d : DbName) → IsSorted (L.contents e d)
  pub read_view : (e : L.Env) {t : L.Txn} → L.read_txn e ≡ ok t → L.view t ≡ L.contents e
  pub write_view : (e : L.Env) {t : L.Txn} → L.write_txn e ≡ ok t → L.view t ≡ L.contents e
  pub commit_contents :
      (e : L.Env) (t : L.Txn) {e' : L.Env} → L.commit e t ≡ ok e' → L.contents e' ≡ L.view t
  pub create_view :
      (t : L.Txn) (d : DbName) {t' : L.Txn} → L.create_database t d ≡ ok t' → L.view t' ≡ L.view t
  pub open_name : (t : L.Txn) (d : DbName) {h : DbName} → L.open_database t d ≡ ok (some h) → h ≡ d
  pub get_lookup :
      (t : L.Txn) (d : DbName) (k : Bytes) {r : Option Bytes}
      → L.get t d k ≡ ok r
      → r ≡ lookup k (L.view t d)
  pub put_changes :
      (t : L.Txn) (d : DbName) (k v : Bytes) {t' : L.Txn}
      → L.put t d k v ≡ ok t'
      → Changes (L.view t) d (insert k v (L.view t d)) (L.view t')
  pub delete_changes :
      (t : L.Txn) (d : DbName) (k : Bytes) {t' : L.Txn}
      → L.delete t d k ≡ ok t'
      → Changes (L.view t) d (erase k (L.view t d)) (L.view t')
  pub clear_changes :
      (t : L.Txn) (d : DbName) {t' : L.Txn}
      → L.clear t d ≡ ok t'
      → Changes (L.view t) d [] (L.view t')
  pub delete_range_changes :
      (t : L.Txn) (d : DbName) (lo hi : Bound) {t' : L.Txn}
      → L.delete_range t d lo hi ≡ ok t'
      → Changes (L.view t) d (without lo hi (L.view t d)) (L.view t')
  pub range_reads :
      (t : L.Txn) (d : DbName) (lo hi : Bound) {items : List (Result (Bytes × Bytes) L.HeedError)}
      → L.range t d lo hi ≡ ok items
      → Reads items (within lo hi (L.view t d))
  pub last_entry :
      (t : L.Txn) (d : DbName) {r : Option (Bytes × Bytes)}
      → L.last t d ≡ ok r
      → r ≡ Store.last (L.view t d)
  pub len_length : (t : L.Txn) (d : DbName) {n : ℕ} → L.len t d ≡ ok n → n ≡ length (L.view t d)
  pub copy_contents :
      (e : L.Env) {e' : L.Env} → L.copy_to_file e ≡ ok e' → L.contents e' ≡ L.contents e
