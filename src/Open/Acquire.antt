-- ===== src/Open/Acquire.antt =====
-- `DataDirLock::acquire` of d-lmdb/src/lock.rs.
use d_lmdb.Base.{
  ℕ, ◌≡◌, ◌≢◌, refl, sym, ap, ◌∙◌, inl, inr, ◌==◌, Option, some, none, Result, ok, err, arith,
  Result-cases, Bool-cases, if◌then◌else◌,
}
use d_lmdb.Bytes.{Bytes, bytes_eq}
use d_lmdb.Bytes.Order.{eq_of_bytes_eq}
use d_lmdb.Lmdb.{Lmdb}
use d_lmdb.Wal.{Codec}
use d_lmdb.Db.Types.{Error}
use d_lmdb.Host.{Host, released, IsHost, after, ◌>>=◌, lift, converted, dropping}
use d_lmdb.Open.Steps.{Same}
use d_lmdb.Open.{lock_error, lock_path, acquire}

pub released_self : (i : ℕ) → released i (some i) ≡ none
released_self i = ground arith

pub released_other : (i : ℕ) (o : Option ℕ) → o ≢ some i → released i o ≡ o
released_other i none n = refl
released_other i (some j) n = elim (Bool-cases (i == j)) [
  | inl e ↦ absurd (n (ap some (ground arith)))
  | inr e ↦ rw e
]

-- A file that took a free lock and is dropped leaves the locks as they were.
pub released_taken :
    (i : ℕ) (before : Bytes → Option ℕ) (p : Bytes)
    → before p ≡ none
    → ((q : Bytes) → before q ≢ some i)
    → (q : Bytes) → released i (if bytes_eq q p then some i else before q) ≡ before q
released_taken i before p free fresh q = elim (Bool-cases (bytes_eq q p)) [
  | inl e ↦ rw e (released_self i ∙ sym (ap before (eq_of_bytes_eq q p e) ∙ free))
  | inr e ↦ rw e (released_other i (before q) (fresh q))
]

module _ {W : Type 0} {L : Lmdb} (host : Host W L) (C : Codec) (is : IsHost host) where
  -- what an attempt to take the lock at `p` did
  abbrev pub Acquired : W → Bytes → W × Result host.File Error → Type 0
  Acquired w p (w', ok f) =
      (is.holder w p ≡ none)
      × ((q : Bytes) → is.holder w q ≢ some (is.id_of f))
      × ((q : Bytes) → is.holder w' q ≡ (if bytes_eq q p then some (is.id_of f) else is.holder w q))
  Acquired w p (w', err e) = Same host is w w'

  locking :
      (dir : Bytes) (f : host.File) (w0 w : W)
      → is.path_of f ≡ lock_path host C dir
      → ((q : Bytes) → is.holder w0 q ≢ some (is.id_of f))
      → Same host is w0 w
      → Acquired w0 (lock_path host C dir) (
          dropping
            (host.drop_file f)
            (converted (lock_error host C dir) (host.try_lock f) >>= λ v. lift (ok f))
            w)
  unfolding dropping ◌>>=◌ converted
  locking dir f w0 w at fresh same = elim (Result-cases (host.try_lock f w).1) [
    | inl (tt', e) ↦
        rw (e, after)
          (
            sym (same (lock_path host C dir)) ∙ ap (is.holder w) (sym at) ∙ is.lock_free f w e,
            fresh,
            λ q.
                is.lock_held f w q e
                ∙ ap (λ p. if bytes_eq q p then some (is.id_of f) else is.holder w q) at
                ∙ ap
                    (λ (o : Option ℕ).
                      if bytes_eq q (lock_path host C dir) then some (is.id_of f) else o)
                    (same q),
          )
    | inr (x, e) ↦
        rw (e, after)
          λ q.
            is.drop_releases f (host.try_lock f w).0 q
            ∙ ap (released (is.id_of f)) (is.lock_refused f w q e ∙ same q)
            ∙ released_other (is.id_of f) (is.holder w0 q) (fresh q)
  ]

  pub acquire-Acquired :
      (dir : Bytes) (w : W) → Acquired w (lock_path host C dir) (acquire host C dir w)
  unfolding acquire ◌>>=◌ converted
  acquire-Acquired dir w = elim (Result-cases (host.create_dir_all dir w).1) [
    | inl (u, e) ↦
        rw (e, after)
          (elim (Result-cases
            (host.open_file (lock_path host C dir) (host.create_dir_all dir w).0).1) [
              | inl (f, e') ↦
                  rw (e', after)
                    (locking dir f w _ (is.open_path _ _ e')
                      (λ q h. is.open_fresh _ q _ e' (is.create_dir_keeps dir w q ∙ h))
                      (λ q. is.open_file_keeps _ _ q ∙ is.create_dir_keeps dir w q))
              | inr (x, e') ↦
                  rw (e', after) λ q. is.open_file_keeps _ _ q ∙ is.create_dir_keeps dir w q
            ])
    | inr (x, e) ↦ rw (e, after) λ q. is.create_dir_keeps dir w q
  ]
