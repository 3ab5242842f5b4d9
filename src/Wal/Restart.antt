-- ===== src/Wal/Restart.antt =====
-- A purged log that is opened again (d-lmdb/src/storage_engine.rs): what `new` recovers as the last index.
use d_lmdb.Base.{
  ℕ, ◌+◌, ◌<◌, ◌≤◌, ◌^◌, ◌≡◌, refl, sym, ap, ◌∙◌, true, none, [], ◌∷◌, ok, arith, leb, >>=-eq-ok,
  map_err-eq-ok, ok-injective, Result-cases, inl, inr,
}
use d_lmdb.Bytes.{bytes_eq}
use d_lmdb.Bytes.Order.{bytes_eq_refl}
use d_lmdb.Bytes.Word.{to_be}
use d_lmdb.Machine.Types.{LogId}
use d_lmdb.Store.{Entries, lookup, last}
use d_lmdb.Lmdb.{Lmdb, log, meta, IsLawful}
use d_lmdb.Wal
use d_lmdb.Wal.{Codec, LmdbWal, db_err, index_of, with_log, purge_log, purge}
use d_lmdb.Wal.Log.{stored_at}
use d_lmdb.Wal.Purge.{purge-cuts}
use d_lmdb.Wal.Tail.{Covers}
use d_lmdb.Wal.Last.{purge-IsCovered}
use d_lmdb.Wal.Reach.{Reached, Reached-IsCovered}

-- A covered log that stores nothing up to its last index is empty.
Covers-empty :
    (n : ℕ) (m : Entries)
    → Covers n m
    → ((j : ℕ) → j < 2 ^ 64 → j ≤ n → lookup (to_be 8 j) m ≡ none)
    → m ≡ []
unfolding lookup
Covers-empty n [] c gone = refl
Covers-empty n ((k, v) ∷ m) c gone =
    let missing = gone c.0.index c.0.in_range c.0.up_to in
    let found : bytes_eq (to_be 8 c.0.index) k ≡ true =
      ap (bytes_eq (to_be 8 c.0.index)) c.0.spelled ∙ bytes_eq_refl (to_be 8 c.0.index) in
    cc (rw found at missing)

module _ {L : Lmdb} (laws : IsLawful L) (C : Codec) where
  new-last_index :
      (env : L.Env) {w : LmdbWal L}
      → L.contents env log ≡ []
      → Wal.new L C env ≡ ok w
      → w.last_index ≡ 0
  unfolding Wal.new last
  new-last_index env empty h =
      let (t, began, h1) = >>=-eq-ok (db_err L (L.write_txn env)) _ h in
      let (t1, made, h2) = >>=-eq-ok (db_err L (L.create_database t log)) _ h1 in
      let (t2, made', h3) = >>=-eq-ok (db_err L (L.create_database t1 meta)) _ h2 in
      let (tail, looked, h4) = >>=-eq-ok (db_err L (L.last t2 log)) _ h3 in
      let (env', ended, h5) = >>=-eq-ok (db_err L (L.commit env t2)) _ h4 in
      let same =
        laws.create_view t1 meta (map_err-eq-ok _ _ made')
        ∙ laws.create_view t log (map_err-eq-ok _ _ made)
        ∙ laws.write_view env (map_err-eq-ok _ _ began) in
      ap (λ w. w.last_index)
        (sym (ok-injective (record { env = env'; last_index = index_of tail }) _ h5))
      ∙ ap index_of (
          laws.last_entry t2 log (map_err-eq-ok _ _ looked)
          ∙ ap last (ap (λ v. v log) same ∙ empty))

  purge-last_index :
      (w : LmdbWal L) (cutoff : LogId) → (purge L C w cutoff).0.last_index ≡ w.last_index
  unfolding purge
  purge-last_index w cutoff = elim (Result-cases (purge_log L C w.env cutoff)) [
    | inl (env, q) ↦ rw (q, with_log) refl
    | inr (x, q) ↦ rw (q, with_log) refl
  ]

  -- Where a purge reaches to the last entry or beyond, below the greatest 64-bit number, the running
  -- log keeps its last index, but a log that is opened again on what the purge left starts from 0.
  pub purge-new_forgets :
      (w : LmdbWal L) (cutoff : LogId) {w' : LmdbWal L}
      → Reached C w
      → w.last_index ≤ cutoff.index
      → cutoff.index + 1 < 2 ^ 64
      → (purge L C w cutoff).1 ≡ ok tt
      → Wal.new L C (purge L C w cutoff).0.env ≡ ok w'
      → ((purge L C w cutoff).0.last_index ≡ w.last_index) × (w'.last_index ≡ 0)
  purge-new_forgets w cutoff s reach bound h opened =
      let covered = purge-IsCovered laws C w cutoff (Reached-IsCovered C laws w s) in
      let kept = purge-last_index w cutoff in
      let removed : (j : ℕ)
          → j < 2 ^ 64
          → j ≤ (purge L C w cutoff).0.last_index
          → stored_at (purge L C w cutoff).0 j ≡ none =
        λ j in_range up_to.
          let low : leb j cutoff.index ≡ true = ground arith in
          purge-cuts laws C w cutoff j in_range bound h ∙ rw low refl in
      (kept, new-last_index _ (Covers-empty _ _ covered removed) opened)
