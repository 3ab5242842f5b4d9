-- ===== src/Lmdb/Memory.antt =====
-- An `Lmdb` in memory that meets the laws, for tests: it refuses empty keys, and keys over 511
-- bytes, as LMDB does in its default build.
use d_lmdb.Base.{
  ◌≡◌, refl, sym, ap, ok-injective, Bool, true, false, ◌||◌, some, List, [], ◌∷◌, Result, ok, err,
  ltb, length, if◌then◌else◌, ◌==◌,
}
use d_lmdb.Bytes.{Bytes, ascii}
use d_lmdb.Store.{
  Entries, Bound, included, excluded, unbounded, lookup, insert, erase, within, without,
}
use d_lmdb.Store
use d_lmdb.Store.Sorted.{IsSorted, insert-IsSorted, erase-IsSorted, without-IsSorted}
use d_lmdb.Lmdb.{DbName, db_eq, Lmdb, Reads, IsLawful}

pub record Databases : Type 0 where
  pub entries : DbName → Entries
  pub sorted : (d : DbName) → IsSorted (entries d)

abbrev pub empty : Databases
empty = record { entries = λ d. []; sorted = λ d. tt }

pub data MemoryError : Type 0 where
  bad_val_size : MemoryError

pub IsSorted-at :
    (b : Bool) (m n : Entries) → IsSorted m → IsSorted n → IsSorted (if b then m else n)
IsSorted-at true m n s r = s
IsSorted-at false m n s r = r

abbrev set : Databases → DbName → (m : Entries) → IsSorted m → Databases
set t d m s = record {
  entries = λ n. if db_eq n d then m else t.entries n;
  sorted = λ n. IsSorted-at (db_eq n d) m (t.entries n) s (t.sorted n);
}

abbrev pub bad_key : Bytes → Bool
bad_key k = length k == 0 || ltb 511 (length k)

abbrev checked {ℓ} : {A : Type ℓ} → Bytes → A → Result A MemoryError
checked k a = if bad_key k then err bad_val_size else ok a

pub checked_ok {ℓ} : {A : Type ℓ} (k : Bytes) (a : A) → bad_key k ≡ false → checked k a ≡ ok a
checked_ok k a h = rw h refl

abbrev bound_checked {ℓ} : {A : Type ℓ} → Bound → A → Result A MemoryError
bound_checked (included k) a = checked k a
bound_checked (excluded k) a = checked k a
bound_checked unbounded a = ok a

abbrev yields : Entries → List (Result (Bytes × Bytes) MemoryError)
yields [] = []
yields (e ∷ m) = ok e ∷ yields m

abbrev pub memory : Lmdb
memory = record {
  Env = Databases;
  Txn = Databases;
  HeedError = MemoryError;
  to_string = λ _. ascii "MDB_BAD_VALSIZE";
  read_txn = λ e. ok e;
  write_txn = λ e. ok e;
  commit = λ e t. ok t;
  create_database = λ t d. ok t;
  open_database = λ t d. ok (some d);
  get = λ t d k. checked k (lookup k (t.entries d));
  put = λ t d k v.
      checked k (set t d (insert k v (t.entries d)) (insert-IsSorted k v _ (t.sorted d)));
  delete = λ t d k. checked k (set t d (erase k (t.entries d)) (erase-IsSorted k _ (t.sorted d)));
  clear = λ t d. ok (set t d [] tt);
  delete_range = λ t d lo hi.
      bound_checked lo
        (set t d (without lo hi (t.entries d)) (without-IsSorted lo hi _ (t.sorted d)));
  range = λ t d lo hi. bound_checked lo (yields (within lo hi (t.entries d)));
  last = λ t d. ok (Store.last (t.entries d));
  len = λ t d. ok (length (t.entries d));
  copy_to_file = λ e. ok e;
  view = λ t. t.entries;
  contents = λ e. e.entries;
}

yields-Reads : (m : Entries) → Reads (yields m) m
yields-Reads [] = tt
yields-Reads (e ∷ m) = (refl, yields-Reads m)

if_ok {ℓ} :
    {A : Type ℓ} (b : Bool) {a c : A} → (if b then err bad_val_size else ok a) ≡ ok c → c ≡ a
if_ok true h = cc
if_ok false h = cc

bound_ok {ℓ} : {A : Type ℓ} (lo : Bound) {a c : A} → bound_checked lo a ≡ ok c → c ≡ a
bound_ok (included k) h = if_ok (bad_key k) h
bound_ok (excluded k) h = if_ok (bad_key k) h
bound_ok unbounded h = cc

pub memory-IsLawful : IsLawful memory
memory-IsLawful = record {
  contents-IsSorted = λ e d. e.sorted d;
  read_view = λ e h. ap (λ t. t.entries) (sym (ok-injective _ _ h));
  write_view = λ e h. ap (λ t. t.entries) (sym (ok-injective _ _ h));
  commit_contents = λ e t h. ap (λ t. t.entries) (sym (ok-injective _ _ h));
  create_view = λ t d h. ap (λ t. t.entries) (sym (ok-injective _ _ h));
  open_name = λ t d h. cc;
  get_lookup = λ t d k h. if_ok (bad_key k) h;
  put_changes = λ t d k v h n. ap (λ t. t.entries n) (if_ok (bad_key k) h);
  delete_changes = λ t d k h n. ap (λ t. t.entries n) (if_ok (bad_key k) h);
  clear_changes = λ t d h n. ap (λ t. t.entries n) (sym (ok-injective _ _ h));
  delete_range_changes = λ t d lo hi h n. ap (λ t. t.entries n) (bound_ok lo h);
  range_reads = λ t d lo hi h. rw (bound_ok lo h) (yields-Reads (within lo hi (t.entries d)));
  last_entry = λ t d h. sym (ok-injective _ _ h);
  len_length = λ t d h. sym (ok-injective _ _ h);
  copy_contents = λ e h. ap (λ t. t.entries) (sym (ok-injective _ _ h));
}
