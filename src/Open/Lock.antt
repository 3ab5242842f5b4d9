-- ===== src/Open/Lock.antt =====
-- The lock of the data directory over `DLmdb::open` and `close` (d-lmdb/src/db.rs, d-lmdb/src/lock.rs).
use d_lmdb.Base.{
  ℕ, ◌≡◌, ◌≢◌, refl, sym, ap, subst, ◌∙◌, inl, inr, some, none, Result, ok, err, Result-cases,
  if◌then◌else◌,
}
use d_lmdb.Bytes.{Bytes, bytes_eq}
use d_lmdb.Bytes.Order.{bytes_eq_refl}
use d_lmdb.Lmdb.{Lmdb}
use d_lmdb.Machine.Types.{LmdbStateMachine}
use d_lmdb.Wal.{LmdbWal, Codec}
use d_lmdb.Db.Types.{Error}
use d_lmdb.Config.{DLmdbConfig}
use d_lmdb.Host.{Host, released, IsHost, Step, after, ◌>>=◌, converted, cleaned, dropping}
use d_lmdb.Open.{Opened, lock_path, acquire, open_storage, open_with, close}
use d_lmdb.Open.Steps.{Same, Keeps}
use d_lmdb.Open.Storage.{open_storage-Keeps, open_storage-data_dir_lock}
use d_lmdb.Open.Acquire.{released_taken, Acquired, acquire-Acquired}

module _ {W : Type 0} {L : Lmdb} (host : Host W L) (C : Codec) (is : IsHost host) where
  -- what an attempt to open `p` did to the locks
  abbrev pub Locked : W → Bytes → W × Result (Opened host C) Error → Type 0
  Locked w p (w', ok o) =
      (is.holder w p ≡ none)
      × ((q : Bytes) → is.holder w q ≢ some (is.id_of o.data_dir_lock))
      × ((q : Bytes)
          → is.holder w' q
            ≡ (if bytes_eq q p then some (is.id_of o.data_dir_lock) else is.holder w q))
  Locked w p (w', err e) = Same host is w w'

  locked :
      (w : W) (p : Bytes) (a : W × Result host.File Error)
      (next : host.File → Step W (Opened host C))
      → Acquired host C is w p a
      → ((f : host.File) → Keeps host is (next f))
      → ((f : host.File) (w : W) (o : Opened host C) → (next f w).1 ≡ ok o → o.data_dir_lock ≡ f)
      → Locked w p (after a (λ f. dropping (host.drop_file f) (next f)))
  unfolding dropping
  locked w p (w', err e) next a k g = a
  locked w p (w', ok f) next (free, fresh, held) k g = elim (Result-cases (next f w').1) [
    | inl (o, e) ↦
        rw (e, cleaned)
          (
            free,
            (λ q h. fresh q (h ∙ ap (λ f. some (is.id_of f)) (g f w' o e))),
            λ q.
                k f w' q
                ∙ held q
                ∙ ap (λ f. if bytes_eq q p then some (is.id_of f) else is.holder w q)
                    (sym (g f w' o e)),
          )
    | inr (x, e) ↦
        rw (e, cleaned)
          λ q.
            is.drop_releases f (next f w').0 q
            ∙ ap (released (is.id_of f)) (k f w' q ∙ held q)
            ∙ released_taken (is.id_of f) (is.holder w) p free fresh q
  ]

  acquire-held :
      (dir : Bytes) (w : W) (a : W × Result host.File Error)
      (next : host.File → Step W (Opened host C)) {i : ℕ}
      → is.holder w (lock_path host C dir) ≡ some i
      → Acquired host C is w (lock_path host C dir) a
      → (e : Error) × (after a next ≡ (a.0, err e)) × Same host is w a.0
  acquire-held dir w (w', ok f) next held (free, fresh, taken) = cc
  acquire-held dir w (w', err e) next held same = (e, refl, same)

  -- A directory that is held is refused, and nothing follows the attempt to take the lock.
  open_with-held :
      (start : LmdbWal L → LmdbStateMachine L → Step W host.Engine) (dir : Bytes)
      (config : DLmdbConfig) (w : W) {i : ℕ}
      → is.holder w (lock_path host C dir) ≡ some i
      → (e : Error) × (open_with host C dir config start w ≡ ((acquire host C dir w).0, err e))
        × Same host is w (acquire host C dir w).0
  unfolding open_with ◌>>=◌
  open_with-held start dir config w held =
      acquire-held dir w (acquire host C dir w) _ held (acquire-Acquired host C is dir w)

  module _ (start : LmdbWal L → LmdbStateMachine L → Step W host.Engine)
      (starts : (wal : LmdbWal L) (m : LmdbStateMachine L) → Keeps host is (start wal m))
      (dir : Bytes) (config : DLmdbConfig) where
    -- Where the start of the engine leaves the locks alone, an open that succeeds took the lock
    -- of the directory, which nobody held, and holds it, and an open that fails leaves every
    -- lock as it was, whatever step it failed in.
    pub open_with_locks :
        (w : W) → Locked w (lock_path host C dir) (open_with host C dir config start w)
    unfolding open_with ◌>>=◌
    open_with_locks w =
        locked w (lock_path host C dir) (acquire host C dir w)
          (open_storage host C dir config start) (acquire-Acquired host C is dir w)
          (λ f. open_storage-Keeps host C is dir config start f starts)
          (open_storage-data_dir_lock host C is dir config start)

    Locked-ok :
        (w : W) (p : W × Result (Opened host C) Error) {o : Opened host C}
        → p.1 ≡ ok o
        → Locked w (lock_path host C dir) p
        → Locked w (lock_path host C dir) (p.0, ok o)
    Locked-ok w (w', r) h l = subst (λ r. Locked w (lock_path host C dir) (w', r)) h l

    open_with-holds :
        (w : W) {o : Opened host C}
        → (open_with host C dir config start w).1 ≡ ok o
        → is.holder (open_with host C dir config start w).0 (lock_path host C dir)
          ≡ some (is.id_of o.data_dir_lock)
    open_with-holds w h =
        let (free, fresh, held) =
          Locked-ok w (open_with host C dir config start w) h (open_with_locks w) in
        held (lock_path host C dir) ∙ rw bytes_eq_refl refl

    -- A handle that is closed, whether or not the engine stops without an error, leaves every
    -- lock as it was before it was opened, where the start of the engine left them alone.
    pub close-open_with :
        (w : W) {o : Opened host C}
        → (open_with host C dir config start w).1 ≡ ok o
        → (q : Bytes)
        → is.holder (close host C o (open_with host C dir config start w).0).0 q ≡ is.holder w q
    unfolding close converted
    close-open_with w h q =
        let (free, fresh, held) =
          Locked-ok w (open_with host C dir config start w) h (open_with_locks w) in
        is.drop_releases _ _ q
        ∙ ap (released _) (is.drop_env_keeps _ _ q ∙ is.stop_keeps _ _ q ∙ held q)
        ∙ released_taken _ (is.holder w) (lock_path host C dir) free fresh q

  -- While a handle of a directory is open, whose engine left the locks alone when it started, a
  -- second open of it fails, whatever its configuration: it does nothing but the attempt to take
  -- the lock, and leaves every lock as it was.
  pub open_with-open_with :
      (start start' : LmdbWal L → LmdbStateMachine L → Step W host.Engine)
      → ((wal : LmdbWal L) (m : LmdbStateMachine L) → Keeps host is (start wal m))
      → (dir : Bytes) (config config' : DLmdbConfig) (w : W) {o : Opened host C}
      → (open_with host C dir config start w).1 ≡ ok o
      → (e : Error) × (open_with host C dir config' start' (open_with host C dir config start w).0
          ≡ ((acquire host C dir (open_with host C dir config start w).0).0, err e))
        × Same host is
            (open_with host C dir config start w).0
            (acquire host C dir (open_with host C dir config start w).0).0
  open_with-open_with start start' starts dir config config' w h =
      open_with-held start' dir config' _ (open_with-holds start starts dir config w h)
