-- ===== src/Wal/Last.antt =====
-- The highest index that `LmdbWal` of d-lmdb/src/storage_engine.rs keeps in memory, over any sequence
-- of operations of the log.
use Prim.Native.Nat.{max}
use d_lmdb.Base.{
  ℕ, ◌≡◌, refl, sym, ap, subst, ◌∙◌, Option, map_err, List, [], ◌∷◌, ok, arith, >>=-eq-ok,
  map_err-eq-ok, ok-injective, Result-cases, inl, inr,
}
use d_lmdb.Bytes.{Bytes}
use d_lmdb.Bytes.Word.{to_be}
use d_lmdb.Machine.Types.{LogId, bincode_error}
use d_lmdb.Store.{Bound, included, unbounded, last}
use d_lmdb.Lmdb.{Lmdb, log, meta, IsLawful}
use d_lmdb.Wal
use d_lmdb.Wal.{
  Codec, LmdbWal, db_err, index_of, saturating_suc, key_purge_boundary, key_hard_state, put_entries,
  write_entries, persisted, persist_entries, truncate_log, truncated, truncate, with_log, purge_log,
  purge, clear_log, was_reset, reset, write_hard_state, save_hard_state,
}
use d_lmdb.Wal.Log.{InRange}
use d_lmdb.Wal.Tail.{IsKey, Covers, Covers-mono, Covers-insert, Covers-without, Covers-last}

module _ {L : Lmdb} (laws : IsLawful L) (C : Codec) where
  -- every key of the log is that of an index up to `last_index`
  abbrev pub IsCovered : LmdbWal L → Type 0
  IsCovered w = Covers w.last_index (L.contents w.env log)

  begin-Covers :
      (p : ℕ) (env : L.Env) {t : L.Txn}
      → db_err L (L.write_txn env) ≡ ok t
      → Covers p (L.contents env log)
      → Covers p (L.view t log)
  begin-Covers p env began c =
      subst (λ v. Covers p (v log)) (sym (laws.write_view env (map_err-eq-ok _ _ began))) c

  commit-Covers :
      (p : ℕ) (env : L.Env) (t : L.Txn) {env' : L.Env}
      → db_err L (L.commit env t) ≡ ok env'
      → Covers p (L.view t log)
      → Covers p (L.contents env' log)
  commit-Covers p env t ended c =
      subst (λ v. Covers p (v log)) (sym (laws.commit_contents env t (map_err-eq-ok _ _ ended))) c

  put_entries-Covers :
      (p : ℕ) (t : L.Txn) (es : List C.Entry) (n : ℕ) {a : L.Txn × ℕ}
      → InRange C es
      → Covers (max p n) (L.view t log)
      → put_entries L C t es n ≡ ok a
      → Covers (max p a.1) (L.view a.0 log)
  unfolding put_entries
  put_entries-Covers p t [] n r c h =
      subst (λ (a : L.Txn × ℕ). Covers (max p a.1) (L.view a.0 log)) (ok-injective (t, n) _ h) c
  put_entries-Covers p t (e ∷ es) n r c h =
      let (t1, put, rest) =
        >>=-eq-ok (db_err L (L.put t log (to_be 8 (C.index e)) (C.encode_entry e))) _ h in
      let q = max p (max n (C.index e)) in
      let key : IsKey q (to_be 8 (C.index e)) = record {
        index = C.index e;
        in_range = r.0;
        spelled = refl;
        up_to = omega arith;
      } in
      put_entries-Covers p t1 es (max n (C.index e)) r.1
        (subst (λ m. Covers q m) (sym (laws.put_changes t log _ _ (map_err-eq-ok _ _ put) log))
          (Covers-insert q _ _ _ key (Covers-mono (max p n) q _ (omega arith) c)))
        rest

  write_entries-Covers :
      (p : ℕ) (env : L.Env) (es : List C.Entry) {a : L.Env × ℕ}
      → InRange C es
      → Covers p (L.contents env log)
      → write_entries L C env es ≡ ok a
      → Covers (max p a.1) (L.contents a.0 log)
  unfolding write_entries
  write_entries-Covers p env es r c h =
      let (t, began, h1) = >>=-eq-ok (db_err L (L.write_txn env)) _ h in
      let (b, put, h2) = >>=-eq-ok (put_entries L C t es 0) _ h1 in
      let (env', ended, h3) = >>=-eq-ok (db_err L (L.commit env b.0)) _ h2 in
      subst (λ (a : L.Env × ℕ). Covers (max p a.1) (L.contents a.0 log))
        (ok-injective (env', b.1) _ h3)
        (commit-Covers (max p b.1) env b.0 ended (
          put_entries-Covers p t es 0 r
            (Covers-mono p (max p 0) _ (omega arith) (begin-Covers p env began c)) put))

  pub persist_entries-IsCovered :
      (w : LmdbWal L) (es : List C.Entry)
      → InRange C es
      → IsCovered w
      → IsCovered (persist_entries L C w es).0
  unfolding persist_entries
  persist_entries-IsCovered w [] r c = c
  persist_entries-IsCovered w (e ∷ es) r c =
      elim (Result-cases (write_entries L C w.env (e ∷ es))) [
        | inl (a, q) ↦ rw (q, persisted) (write_entries-Covers w.last_index w.env (e ∷ es) r c q)
        | inr (x, q) ↦ rw (q, persisted) c
      ]

  delete_range-Covers :
      (p : ℕ) (t : L.Txn) (lo hi : Bound) {t' : L.Txn}
      → db_err L (L.delete_range t log lo hi) ≡ ok t'
      → Covers p (L.view t log)
      → Covers p (L.view t' log)
  delete_range-Covers p t lo hi deleted c =
      subst (λ m. Covers p m)
        (sym (laws.delete_range_changes t log lo hi (map_err-eq-ok _ _ deleted) log))
        (Covers-without p lo hi _ c)

  -- the last key of a transaction, once it is committed
  last-Covers :
      (p : ℕ) (env : L.Env) (t : L.Txn) {env' : L.Env} {tail : Option (Bytes × Bytes)}
      → db_err L (L.last t log) ≡ ok tail
      → db_err L (L.commit env t) ≡ ok env'
      → Covers p (L.view t log)
      → Covers (index_of tail) (L.contents env' log)
  last-Covers p env t {env'} looked ended c =
      let same = laws.commit_contents env t (map_err-eq-ok _ _ ended) in
      subst (λ o. Covers (index_of o) (L.contents env' log))
        (ap (λ v. last (v log)) same ∙ sym (laws.last_entry t log (map_err-eq-ok _ _ looked)))
        (Covers-last p _ (laws.contents-IsSorted env' log) (commit-Covers p env t ended c))

  truncate_log-Covers :
      (p : ℕ) (env : L.Env) (from : ℕ) {a : L.Env × ℕ}
      → Covers p (L.contents env log)
      → truncate_log L C env from ≡ ok a
      → Covers a.1 (L.contents a.0 log)
  unfolding truncate_log
  truncate_log-Covers p env from c h =
      let (t, began, h1) = >>=-eq-ok (db_err L (L.write_txn env)) _ h in
      let (t1, deleted, h2) =
        >>=-eq-ok (db_err L (L.delete_range t log (included (to_be 8 from)) unbounded)) _ h1 in
      let (tail, looked, h3) = >>=-eq-ok (db_err L (L.last t1 log)) _ h2 in
      let (env', ended, h4) = >>=-eq-ok (db_err L (L.commit env t1)) _ h3 in
      subst (λ (a : L.Env × ℕ). Covers a.1 (L.contents a.0 log))
        (ok-injective (env', index_of tail) _ h4)
        (last-Covers p env t1 looked ended
          (delete_range-Covers p t _ _ deleted (begin-Covers p env began c)))

  pub truncate-IsCovered :
      (w : LmdbWal L) (from : ℕ) → IsCovered w → IsCovered (truncate L C w from).0
  unfolding truncate
  truncate-IsCovered w from c = elim (Result-cases (truncate_log L C w.env from)) [
    | inl (a, q) ↦ rw (q, truncated) (truncate_log-Covers w.last_index w.env from c q)
    | inr (x, q) ↦ rw (q, truncated) c
  ]

  purge_log-Covers :
      (p : ℕ) (env : L.Env) (cutoff : LogId) {env' : L.Env}
      → Covers p (L.contents env log)
      → purge_log L C env cutoff ≡ ok env'
      → Covers p (L.contents env' log)
  unfolding purge_log
  purge_log-Covers p env cutoff c h =
      let (t, began, h1) = >>=-eq-ok (db_err L (L.write_txn env)) _ h in
      let (t1, deleted, h2) = >>=-eq-ok (db_err L (L.delete_range t log _ _)) _ h1 in
      let (t2, put, ended) =
        >>=-eq-ok (db_err L (L.put t1 meta key_purge_boundary (C.encode_id cutoff))) _ h2 in
      commit-Covers p env t2 ended (
        subst (λ m. Covers p m) (sym (laws.put_changes t1 meta _ _ (map_err-eq-ok _ _ put) log))
          (delete_range-Covers p t _ _ deleted (begin-Covers p env began c)))

  pub purge-IsCovered :
      (w : LmdbWal L) (cutoff : LogId) → IsCovered w → IsCovered (purge L C w cutoff).0
  unfolding purge
  purge-IsCovered w cutoff c = elim (Result-cases (purge_log L C w.env cutoff)) [
    | inl (env', q) ↦ rw (q, with_log) (purge_log-Covers w.last_index w.env cutoff c q)
    | inr (x, q) ↦ rw (q, with_log) c
  ]

  clear_log-Covers :
      (env : L.Env) {env' : L.Env} → clear_log L C env ≡ ok env' → Covers 0 (L.contents env' log)
  unfolding clear_log
  clear_log-Covers env h =
      let (t, began, h1) = >>=-eq-ok (db_err L (L.write_txn env)) _ h in
      let (t1, cleared, ended) = >>=-eq-ok (db_err L (L.clear t log)) _ h1 in
      commit-Covers 0 env t1 ended (
        subst (λ m. Covers 0 m) (sym (laws.clear_changes t log (map_err-eq-ok _ _ cleared) log)) tt)

  pub reset-IsCovered : (w : LmdbWal L) → IsCovered w → IsCovered (reset L C w).0
  unfolding reset
  reset-IsCovered w c = elim (Result-cases (clear_log L C w.env)) [
    | inl (env', q) ↦ rw (q, was_reset) (clear_log-Covers w.env q)
    | inr (x, q) ↦ rw (q, was_reset) c
  ]

  write_hard_state-Covers :
      (p : ℕ) (env : L.Env) (state : C.HardState) {env' : L.Env}
      → Covers p (L.contents env log)
      → write_hard_state L C env state ≡ ok env'
      → Covers p (L.contents env' log)
  unfolding write_hard_state
  write_hard_state-Covers p env state c h =
      let (bytes, made, h1) = >>=-eq-ok (map_err bincode_error (C.serialize state)) _ h in
      let (t, began, h2) = >>=-eq-ok (db_err L (L.write_txn env)) _ h1 in
      let (t1, put, ended) = >>=-eq-ok (db_err L (L.put t meta key_hard_state bytes)) _ h2 in
      commit-Covers p env t1 ended (
        subst (λ m. Covers p m) (sym (laws.put_changes t meta _ _ (map_err-eq-ok _ _ put) log))
          (begin-Covers p env began c))

  pub save_hard_state-IsCovered :
      (w : LmdbWal L) (state : C.HardState)
      → IsCovered w
      → IsCovered (save_hard_state L C w state).0
  unfolding save_hard_state
  save_hard_state-IsCovered w state c = elim (Result-cases (write_hard_state L C w.env state)) [
    | inl (env', q) ↦ rw (q, with_log) (write_hard_state-Covers w.last_index w.env state c q)
    | inr (x, q) ↦ rw (q, with_log) c
  ]

  pub new-IsCovered :
      (p : ℕ) (env : L.Env) {w : LmdbWal L}
      → Covers p (L.contents env log)
      → Wal.new L C env ≡ ok w
      → IsCovered w
  unfolding Wal.new
  new-IsCovered p env c h =
      let (t, began, h1) = >>=-eq-ok (db_err L (L.write_txn env)) _ h in
      let (t1, made, h2) = >>=-eq-ok (db_err L (L.create_database t log)) _ h1 in
      let (t2, made', h3) = >>=-eq-ok (db_err L (L.create_database t1 meta)) _ h2 in
      let (tail, looked, h4) = >>=-eq-ok (db_err L (L.last t2 log)) _ h3 in
      let (env', ended, h5) = >>=-eq-ok (db_err L (L.commit env t2)) _ h4 in
      let same =
        laws.create_view t1 meta (map_err-eq-ok _ _ made')
        ∙ laws.create_view t log (map_err-eq-ok _ _ made) in
      subst (λ w. IsCovered w)
        (ok-injective (record { env = env'; last_index = index_of tail }) _ h5)
        (last-Covers p env t2 looked ended
          (subst (λ v. Covers p (v log)) (sym same) (begin-Covers p env began c)))
