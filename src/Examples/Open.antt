-- ===== src/Examples/Open.antt =====
-- A node opened, opened twice and closed, over a host of locks alone.
use d_lmdb.Base.{
  ℕ, ◌+◌, ◌<◌, ◌≡◌, ◌≢◌, ◌∙◌, refl, sym, ap, ◌==◌, Bool-cases, inl, inr, Option, some, none, Result,
  ok, err, arith, if◌then◌else◌, ok-injective,
}
use mathlib.Core.Option.{some-injective}
use d_lmdb.Bytes.{Bytes, ascii, bytes_eq}
use d_lmdb.Store.{lookup}
use d_lmdb.Lmdb.Memory.{memory, empty}
use d_lmdb.Machine.Types.{LmdbStateMachine}
use d_lmdb.Machine.Lifecycle
use d_lmdb.Wal
use d_lmdb.Wal.{LmdbWal}
use d_lmdb.Db.Types.{Error}
use d_lmdb.Config
use d_lmdb.Host.{
  TryLockError, would_block, Host, released, IsHost, Step, ◌>>=◌, converted, dropping,
}
use d_lmdb.Open.{
  Opened, lock_path, acquire, storage_engine_new, state_machine_new, open_storage, open_with,
  start_default,
}
use d_lmdb.Open.Steps.{Same, Keeps, bind-Keeps, converted-Keeps}
use d_lmdb.Open.Lock.{Locked, open_with_locks, open_with-open_with}
use d_lmdb.Examples.{idle}
use d_lmdb.Examples.Wal.{plain}

-- the locks that are held, by identities below `next`
pub record Locks : Type 0 where
  next : ℕ
  held : Bytes → Option ℕ
  bounded : (q : Bytes) (j : ℕ) → held q ≡ some j → j < next

pub released-bounded :
    (i n j : ℕ) (o : Option ℕ) → ((k : ℕ) → o ≡ some k → k < n) → released i o ≡ some j → j < n
released-bounded i n j none b h = cc
released-bounded i n j (some k) b h = elim (Bool-cases (i == k)) [
  | inl e ↦ cc (rw e at h)
  | inr e ↦ b j (rw e at h)
]

pub lt_add_one : {i j : ℕ} → i < j → i < j + 1
lt_add_one h = omega arith

pub taken-bounded :
    (p q : Bytes) (i n j : ℕ) (o : Option ℕ)
    → ((k : ℕ) → o ≡ some k → k < n)
    → (if bytes_eq q p then some i else o) ≡ some j
    → j < n + i + 1
taken-bounded p q i n j o b h = elim (Bool-cases (bytes_eq q p)) [
  | inl e ↦ let same : i ≡ j = some-injective _ _ (rw e at h) in omega arith
  | inr e ↦ let below = b j (rw e at h) in omega arith
]

pub no_bound : (j : ℕ) (o : Option ℕ) → o ≡ none → o ≡ some j → j < 0
no_bound j o e h = cc

abbrev given : Locks → Locks
given w = record {
  next = w.next + 1;
  held = w.held;
  bounded = λ q j h. lt_add_one (w.bounded q j h);
}

abbrev taken : Bytes → ℕ → Locks → Locks
taken p i w = record {
  next = w.next + i + 1;
  held = λ q. if bytes_eq q p then some i else w.held q;
  bounded = λ q j h. taken-bounded p q i w.next j (w.held q) (w.bounded q) h;
}

abbrev dropped : ℕ → Locks → Locks
dropped i w = record {
  next = w.next;
  held = λ q. released i (w.held q);
  bounded = λ q j h. released-bounded i w.next j (w.held q) (w.bounded q) h;
}

abbrev lock : Bytes × ℕ → Option ℕ → Locks → Locks × Result (Unit {0}) TryLockError
lock (p, i) none w = (taken p i w, ok tt)
lock (p, i) (some j) w = (w, err would_block)

abbrev pub host : Host Locks memory
host = record {
  File = Bytes × ℕ;
  Engine = Unit {0};
  RaftNodeConfig = Unit {0};
  join = λ a b. b;
  shown = λ b. b;
  create_dir_all = λ p w. (w, ok tt);
  open_file = λ p w. (given w, ok (p, w.next));
  try_lock = λ f w. lock f (w.held f.0) w;
  drop_file = λ f w. dropped f.1 w;
  open_env = λ size dbs p w. (w, ok empty);
  drop_env = λ env w. w;
  raft_config = λ w. (w, ok tt);
  start_node = λ p wal m rc w. (w, ok tt);
  start_custom = λ p wal m c w. (w, ok tt);
  stop = λ e w. (w, ok tt);
}

lock-none : (f : Bytes × ℕ) (o : Option ℕ) (w : Locks) → (lock f o w).1 ≡ ok tt → o ≡ none
lock-none f none w h = refl
lock-none f (some j) w h = cc

lock-held :
    (f : Bytes × ℕ) (o : Option ℕ) (w : Locks) (q : Bytes)
    → (lock f o w).1 ≡ ok tt
    → (lock f o w).0.held q ≡ (if bytes_eq q f.0 then some f.1 else w.held q)
lock-held f none w q h = refl
lock-held f (some j) w q h = cc

lock-refused :
    (f : Bytes × ℕ) (o : Option ℕ) (w : Locks) (q : Bytes) {e : TryLockError}
    → (lock f o w).1 ≡ err e
    → (lock f o w).0.held q ≡ w.held q
lock-refused f none w q h = cc
lock-refused f (some j) w q h = refl

is_fresh : (w : Locks) (q : Bytes) → w.held q ≢ some w.next
is_fresh w q h = let below = w.bounded q w.next h in omega arith

pub host-IsHost : IsHost host
host-IsHost = record {
  holder = λ w q. w.held q;
  id_of = λ f. f.1;
  path_of = λ f. f.0;
  open_path = λ p w h. ap (λ f. f.0) (sym (ok-injective _ _ h));
  open_fresh = λ p q w h held. is_fresh w q (held ∙ ap (λ f. some f.1) (sym (ok-injective _ _ h)));
  lock_free = λ f w h. lock-none f (w.held f.0) w h;
  lock_held = λ f w q h. lock-held f (w.held f.0) w q h;
  lock_refused = λ f w q h. lock-refused f (w.held f.0) w q h;
  drop_releases = λ f w q. refl;
  create_dir_keeps = λ p w q. refl;
  open_file_keeps = λ p w q. refl;
  open_env_keeps = λ size dbs p w q. refl;
  drop_env_keeps = λ env w q. refl;
  raft_config_keeps = λ w q. refl;
  start_node_keeps = λ p wal m rc w q. refl;
  start_custom_keeps = λ p wal m config w q. refl;
  stop_keeps = λ e w q. refl;
}

abbrev pub unlocked : Locks
unlocked = record { next = 0; held = λ q. none; bounded = λ q j h. no_bound j none refl h }

abbrev pub dir : Bytes
dir = ascii "data"

start_default-Keeps :
    (wal : LmdbWal memory) (m : LmdbStateMachine memory)
    → Keeps host host-IsHost (start_default host plain dir wal m)
start_default-Keeps wal m =
    bind-Keeps host host-IsHost _ _ (converted-Keeps host host-IsHost _ _ λ w q. refl)
      λ rc. converted-Keeps host host-IsHost _ _ λ w q. refl

abbrev pub node : Opened host plain
node = record {
  db = record {
    state_machine = record idle { map_size = 10737418240 };
    max_key_bytes = 512;
    max_value_bytes = 1048576;
  };
  inner = tt;
  data_dir_lock = (lock_path host plain dir, 0);
}

abbrev open_at : Bytes → Step Locks (Opened host plain)
open_at d = open_with host plain d (Config.new d) (start_default host plain d)

opened_ok : (open_at dir unlocked).1 ≡ ok node
unfolding open_with acquire ◌>>=◌ converted dropping open_storage storage_engine_new
    state_machine_new Wal.new Lifecycle.new Lifecycle.open_databases lookup Config.new
opened_ok = refl

abbrev dir_config : Config.DLmdbConfig
dir_config = Config.new dir

open_with_locks_example :
    Locked host plain host-IsHost unlocked
      (lock_path host plain dir)
      (open_with host plain dir dir_config (start_default host plain dir) unlocked)
open_with_locks_example =
    open_with_locks host plain host-IsHost (start_default host plain dir) start_default-Keeps dir
      dir_config unlocked

open_with-open_with_example :
    (e : Error) × (open_at dir (open_at dir unlocked).0
      ≡ ((acquire host plain dir (open_at dir unlocked).0).0, err e))
    × Same host host-IsHost
        (open_at dir unlocked).0
        (acquire host plain dir (open_at dir unlocked).0).0
open_with-open_with_example =
    open_with-open_with host plain host-IsHost (start_default host plain dir)
      (start_default host plain dir) start_default-Keeps dir dir_config dir_config unlocked
      opened_ok
