-- ===== src/Wal/Purge.antt =====
-- The log after a purge.
use d_lmdb.Base.{
  ℕ, ◌+◌, ◌<◌, ◌^◌, ◌≡◌, ap, ◌∙◌, Option, none, ◌&&◌, ok, arith, leb, if◌then◌else◌, >>=-eq-ok,
  map_err-eq-ok, Result-cases, inl, inr,
}
use d_lmdb.Bytes.{Bytes, bytes_lt, bytes_le}
use d_lmdb.Bytes.Word.{to_be}
use d_lmdb.Store.{included, excluded, lookup}
use d_lmdb.Lmdb.{Lmdb, log, meta, IsLawful}
use d_lmdb.Machine.Types.{LogId}
use d_lmdb.Wal.{
  Codec, LmdbWal, db_err, with_log, saturating_suc, purge_log, purge, key_purge_boundary,
}
use d_lmdb.Wal.Log.{stored_at, bytes_le-to_be, bytes_lt-to_be, cut}

module _ {L : Lmdb} (laws : IsLawful L) (C : Codec) where
  purge_log-cuts :
      (env : L.Env) (cutoff : LogId) (j : ℕ) {env' : L.Env}
      → j < 2 ^ 64
      → cutoff.index + 1 < 2 ^ 64
      → purge_log L C env cutoff ≡ ok env'
      → lookup (to_be 8 j) (L.contents env' log)
        ≡ (if leb j cutoff.index then none else lookup (to_be 8 j) (L.contents env log))
  unfolding purge_log
  purge_log-cuts env cutoff j hj hc h =
      let hi = excluded (to_be 8 (saturating_suc cutoff.index)) in
      let (t, began, h1) = >>=-eq-ok (db_err L (L.write_txn env)) _ h in
      let (t1, deleted, h2) =
        >>=-eq-ok (db_err L (L.delete_range t log (included (to_be 8 0)) hi)) _ h1 in
      let (t2, put, ended) =
        >>=-eq-ok (db_err L (L.put t1 meta key_purge_boundary (C.encode_id cutoff))) _ h2 in
      ap (λ v. lookup (to_be 8 j) (v log)) (laws.commit_contents env t2 (map_err-eq-ok _ _ ended))
      ∙ ap (lookup (to_be 8 j)) (laws.put_changes t1 meta _ _ (map_err-eq-ok _ _ put) log)
      ∙ cut laws C t (included (to_be 8 0)) hi j deleted
      ∙ ap
          (λ v.
            if bytes_le (to_be 8 0) (to_be 8 j)
              && bytes_lt (to_be 8 j) (to_be 8 (saturating_suc cutoff.index))
            then none
            else lookup (to_be 8 j) (v log))
          (laws.write_view env (map_err-eq-ok _ _ began))
      ∙ purged cutoff.index j hj hc (lookup (to_be 8 j) (L.contents env log))
    where
      purged :
          (c j : ℕ)
          → j < 2 ^ 64
          → c + 1 < 2 ^ 64
          → (o : Option Bytes)
          → (if bytes_le (to_be 8 0) (to_be 8 j)
                && bytes_lt (to_be 8 j) (to_be 8 (saturating_suc c))
              then none
              else o)
            ≡ (if leb j c then none else o)
      purged c j hj hc o =
          let next : saturating_suc c ≡ c + 1 = ground arith in
          rw next
            (ground (arith, bytes_le-to_be 0 j (omega arith) hj, bytes_lt-to_be j (c + 1) hj hc))

  -- A successful `purge` up to an entry whose index is below the greatest 64-bit number removes
  -- the entries at that index and below, and keeps those above, for indices of 64 bits.
  pub purge-cuts :
      (w : LmdbWal L) (cutoff : LogId) (j : ℕ)
      → j < 2 ^ 64
      → cutoff.index + 1 < 2 ^ 64
      → (purge L C w cutoff).1 ≡ ok tt
      → stored_at (purge L C w cutoff).0 j ≡ (if leb j cutoff.index then none else stored_at w j)
  unfolding purge
  purge-cuts w cutoff j hj hc h = elim (Result-cases (purge_log L C w.env cutoff)) [
    | inl (env, q) ↦ rw (q, with_log) (purge_log-cuts w.env cutoff j hj hc q)
    | inr (x, q) ↦ cc (rw (q, with_log) at h)
  ]
