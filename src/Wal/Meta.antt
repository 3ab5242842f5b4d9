-- ===== src/Wal/Meta.antt =====
-- The metadata beside the log: the hard state and the purge boundary.
use d_lmdb.Base.{
  ◌≡◌, ap, ◌∙◌, Option, some, none, ok, map_err, >>=-eq-ok, map_err-eq-ok, Result-cases, inl, inr,
}
use d_lmdb.Bytes.{Bytes}
use d_lmdb.Store.{lookup}
use d_lmdb.Store.Lookup.{lookup-insert_self}
use d_lmdb.Lmdb.{Lmdb, log, meta, IsLawful}
use d_lmdb.Machine.Types.{LogId, bincode_error}
use d_lmdb.Wal.{
  Codec, LmdbWal, db_err, with_log, purge_log, purge, decoded_id, load_purge_boundary,
  write_hard_state, save_hard_state, decoded_state, load_hard_state, key_hard_state,
  key_purge_boundary,
}

module _ {L : Lmdb} (laws : IsLawful L) (C : Codec) where
  write_hard_state-meta :
      (env : L.Env) (state : C.HardState) {env' : L.Env}
      → write_hard_state L C env state ≡ ok env'
      → (b : Bytes) × (C.serialize state ≡ ok b)
        × (lookup key_hard_state (L.contents env' meta) ≡ some b)
  unfolding write_hard_state
  write_hard_state-meta env state h =
      let (b, serialized, h1) = >>=-eq-ok (map_err bincode_error (C.serialize state)) _ h in
      let (t, began, h2) = >>=-eq-ok (db_err L (L.write_txn env)) _ h1 in
      let (t1, put, ended) = >>=-eq-ok (db_err L (L.put t meta key_hard_state b)) _ h2 in
      (
        b,
        map_err-eq-ok _ _ serialized,
        ap (λ v. lookup key_hard_state (v meta))
              (laws.commit_contents env t1 (map_err-eq-ok _ _ ended))
            ∙ ap (lookup key_hard_state)
                (laws.put_changes t meta key_hard_state b (map_err-eq-ok _ _ put) meta)
            ∙ lookup-insert_self key_hard_state b (L.view t meta),
      )

  decoded_state-some :
      (b : Bytes) (state : C.HardState) (o : Option Bytes) {r : Option C.HardState}
      → C.deserialize b ≡ ok state
      → o ≡ some b
      → decoded_state L C o ≡ ok r
      → r ≡ some state
  decoded_state-some b state (some c) d e h = cc
  decoded_state-some b state none d e h = cc

  -- With a codec that reads back the hard states it writes, a successful load after a successful
  -- save gives the saved hard state.
  pub save-load_hard_state :
      (w : LmdbWal L) (state : C.HardState) {r : Option C.HardState}
      → ((b : Bytes) → C.serialize state ≡ ok b → C.deserialize b ≡ ok state)
      → (save_hard_state L C w state).1 ≡ ok tt
      → load_hard_state L C (save_hard_state L C w state).0 ≡ ok r
      → r ≡ some state
  unfolding save_hard_state load_hard_state
  save-load_hard_state w state back h loaded =
      elim (Result-cases (write_hard_state L C w.env state)) [
        | inl (env, q) ↦
            let (b, serialized, held) = write_hard_state-meta w.env state q in
            let (t, began, h1) =
              >>=-eq-ok (db_err L (L.read_txn env)) _ (rw (q, with_log) at loaded) in
            let (found, looked, h2) = >>=-eq-ok (db_err L (L.get t meta key_hard_state)) _ h1 in
            decoded_state-some b state found (back b serialized)
              (laws.get_lookup t meta key_hard_state (map_err-eq-ok _ _ looked)
                ∙ ap (λ v. lookup key_hard_state (v meta))
                    (laws.read_view env (map_err-eq-ok _ _ began))
                ∙ held)
              h2
        | inr (x, q) ↦ cc (rw (q, with_log) at h)
      ]

  purge_log-meta :
      (env : L.Env) (cutoff : LogId) {env' : L.Env}
      → purge_log L C env cutoff ≡ ok env'
      → lookup key_purge_boundary (L.contents env' meta) ≡ some (C.encode_id cutoff)
  unfolding purge_log
  purge_log-meta env cutoff h =
      let (t, began, h1) = >>=-eq-ok (db_err L (L.write_txn env)) _ h in
      let (t1, deleted, h2) = >>=-eq-ok (db_err L (L.delete_range t log _ _)) _ h1 in
      let (t2, put, ended) =
        >>=-eq-ok (db_err L (L.put t1 meta key_purge_boundary (C.encode_id cutoff))) _ h2 in
      ap (λ v. lookup key_purge_boundary (v meta))
        (laws.commit_contents env t2 (map_err-eq-ok _ _ ended))
      ∙ ap (lookup key_purge_boundary) (laws.put_changes t1 meta _ _ (map_err-eq-ok _ _ put) meta)
      ∙ lookup-insert_self key_purge_boundary (C.encode_id cutoff) (L.view t1 meta)

  decoded_id-some :
      (id : LogId) (o : Option Bytes) {r : Option LogId}
      → C.decode_id (C.encode_id id) ≡ ok id
      → o ≡ some (C.encode_id id)
      → decoded_id L C o ≡ ok r
      → r ≡ some id
  decoded_id-some id (some c) d e h = cc
  decoded_id-some id none d e h = cc

  -- With a codec that reads back the entry's id, a successful load of the purge boundary after a
  -- successful purge gives the entry up to which the log was purged.
  pub purge-load_purge_boundary :
      (w : LmdbWal L) (cutoff : LogId) {r : Option LogId}
      → C.decode_id (C.encode_id cutoff) ≡ ok cutoff
      → (purge L C w cutoff).1 ≡ ok tt
      → load_purge_boundary L C (purge L C w cutoff).0 ≡ ok r
      → r ≡ some cutoff
  unfolding purge load_purge_boundary
  purge-load_purge_boundary w cutoff back h loaded =
      elim (Result-cases (purge_log L C w.env cutoff)) [
        | inl (env, q) ↦
            let (t, began, h1) =
              >>=-eq-ok (db_err L (L.read_txn env)) _ (rw (q, with_log) at loaded) in
            let (found, looked, h2) = >>=-eq-ok (db_err L (L.get t meta key_purge_boundary)) _ h1 in
            decoded_id-some cutoff found back
              (laws.get_lookup t meta key_purge_boundary (map_err-eq-ok _ _ looked)
                ∙ ap (λ v. lookup key_purge_boundary (v meta))
                    (laws.read_view env (map_err-eq-ok _ _ began))
                ∙ purge_log-meta w.env cutoff q)
              h2
        | inr (x, q) ↦ cc (rw (q, with_log) at h)
      ]
