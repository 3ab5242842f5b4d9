-- ===== src/Machine/Lifecycle/Snapshots.antt =====
-- Generating and installing snapshots in d-lmdb/src/state_machine.rs.
use d_lmdb.Base.{
  ◌≡◌, refl, sym, ap, subst, ◌∙◌, Bool, true, false, Option, some, none, List, [], ◌∷◌, Result, ok,
  err, arith, >>=-eq-ok, map_err-eq-ok, ok-injective, Result-cases, inl, inr,
}
use d_lmdb.Bytes.{Bytes, ascii}
use d_lmdb.Store.{Entries, unbounded}
use d_lmdb.Store.Sorted.{insert_all, insert_all-sorted}
use d_lmdb.Store.Range.{within_all}
use d_lmdb.Lmdb.{Lmdb, DbName, kv, Reads, IsLawful}
use d_lmdb.Machine.Types.{
  LogId, SnapshotMetadata, EngineError, fatal, LmdbStateMachine, fatal_err, last_applied,
}
use d_lmdb.Machine.Apply.Chunk.{or_id}
use d_lmdb.Machine.Apply.{advance}
use d_lmdb.Machine.Lifecycle.{
  set_running, update_last_snapshot_metadata, generate_snapshot_data, copy_items, put_last_included,
  present, restore_blocking, restored, apply_snapshot_from_file, Joined, finished, join_error,
}
use d_lmdb.Machine.Lifecycle.Recovery.{Marks, put_last_applied-Marks}

module _ {L : Lmdb} (laws : IsLawful L) where
  copy_items-inserts :
      (t : L.Txn) (items : List (Result (Bytes × Bytes) L.HeedError)) (m : Entries) {t' : L.Txn}
      → Reads items m
      → copy_items L t items ≡ ok t'
      → L.view t' kv ≡ insert_all m (L.view t kv)
  unfolding copy_items insert_all
  copy_items-inserts t [] [] r h = ap (λ u. L.view u kv) (sym (ok-injective _ _ h))
  copy_items-inserts t [] (x ∷ m) r h = absurd r
  copy_items-inserts t (err e ∷ items) m r h = cc
  copy_items-inserts t (ok e ∷ items) [] r h = absurd r
  copy_items-inserts t (ok (k, v) ∷ items) (x ∷ m) {t'} r h =
      let (t1, put, rest) = >>=-eq-ok (L.put t kv k v) _ h in
      subst (λ y. L.view t' kv ≡ insert_all (y ∷ m) (L.view t kv)) r.0
        (copy_items-inserts t1 items m r.1 rest
          ∙ ap (insert_all m) (laws.put_changes t kv k v put kv))

  put_last_included-kv :
      (t : L.Txn) (id : Option LogId) {t' : L.Txn}
      → put_last_included L t id ≡ ok t'
      → L.view t' kv ≡ L.view t kv
  put_last_included-kv t none h = ap (λ u. L.view u kv) (sym (ok-injective _ _ h))
  put_last_included-kv t (some id) h = (put_last_applied-Marks laws t id h).1 kv refl

  abbrev pub IncludedMarks : Option LogId → (DbName → Entries) → Type 0
  IncludedMarks none contents = Unit
  IncludedMarks (some id) contents = Marks contents id

  put_last_included-marks :
      (t : L.Txn) (id : Option LogId) {t' : L.Txn}
      → put_last_included L t id ≡ ok t'
      → IncludedMarks id (L.view t')
  put_last_included-marks t none h = tt
  put_last_included-marks t (some id) h = (put_last_applied-Marks laws t id h).0

  -- the steps of a restore, each with its outcome
  assembled :
      (env snapshot : L.Env) (id : Option LogId) (s t t1 t2 t3 : L.Txn) (found : Option DbName)
      (name : DbName) (items : List (Result (Bytes × Bytes) L.HeedError)) {env' : L.Env}
      → L.read_txn snapshot ≡ ok s
      → L.open_database s kv ≡ ok found
      → found ≡ some name
      → L.clear t kv ≡ ok t1
      → L.range s name unbounded unbounded ≡ ok items
      → copy_items L t1 items ≡ ok t2
      → put_last_included L t2 id ≡ ok t3
      → L.commit env t3 ≡ ok env'
      → (L.contents env' kv ≡ L.contents snapshot kv) × IncludedMarks id (L.contents env')
  assembled env snapshot id s t t1 t2 t3 found name items began looked there cleared ranged copied
        marked ended =
      let is_kv : name ≡ kv = laws.open_name s kv (looked ∙ ap ok there) in
      let source : L.view s name ≡ L.contents snapshot kv =
        ap (L.view s) is_kv ∙ ap (λ c. c kv) (laws.read_view snapshot began) in
      let read : Reads items (L.contents snapshot kv) =
        subst (Reads items) (within_all (L.view s name) ∙ source)
          (laws.range_reads s name unbounded unbounded ranged) in
      let committed = laws.commit_contents env t3 ended in
      (
        ap (λ c. c kv) committed
            ∙ put_last_included-kv t2 id marked
            ∙ copy_items-inserts t1 items (L.contents snapshot kv) read copied
            ∙ ap (insert_all (L.contents snapshot kv)) (laws.clear_changes t kv cleared kv)
            ∙ insert_all-sorted (L.contents snapshot kv) (laws.contents-IsSorted snapshot kv),
        subst (IncludedMarks id) (sym committed) (put_last_included-marks t2 id marked),
      )

  present-some :
      (e : EngineError) (o : Option DbName) {a : DbName} → present e o ≡ ok a → o ≡ some a
  present-some e none h = cc
  present-some e (some b) h = cc

  -- A successful restore leaves the snapshot's keys, and marks the last entry that it includes.
  restore_blocking-copies :
      (env : L.Env) (metadata : SnapshotMetadata) (snapshot : L.Env) {env' : L.Env}
      → restore_blocking L env metadata (ok snapshot) ≡ ok env'
      → (L.contents env' kv ≡ L.contents snapshot kv)
        × IncludedMarks metadata.last_included (L.contents env')
  unfolding restore_blocking
  restore_blocking-copies env metadata snapshot h =
      let (s, began, h1) = >>=-eq-ok (fatal_err L (L.read_txn snapshot)) _ h in
      let (found, looked, h2) = >>=-eq-ok (fatal_err L (L.open_database s kv)) _ h1 in
      let (name, there, h3) =
        >>=-eq-ok (present (fatal (ascii "snapshot missing kv database")) found) _ h2 in
      let (t, writing, h4) = >>=-eq-ok (fatal_err L (L.write_txn env)) _ h3 in
      let (t1, cleared, h5) = >>=-eq-ok (fatal_err L (L.clear t kv)) _ h4 in
      let (items, ranged, h6) = >>=-eq-ok (fatal_err L (L.range s name unbounded unbounded)) _ h5 in
      let (t2, copied, h7) = >>=-eq-ok (fatal_err L (copy_items L t1 items)) _ h6 in
      let (t3, marked, ended) =
        >>=-eq-ok (fatal_err L (put_last_included L t2 metadata.last_included)) _ h7 in
      assembled env snapshot metadata.last_included s t t1 t2 t3 found name items
        (map_err-eq-ok _ _ began) (map_err-eq-ok _ _ looked) (present-some _ found there)
        (map_err-eq-ok _ _ cleared) (map_err-eq-ok _ _ ranged) (map_err-eq-ok _ _ copied)
        (map_err-eq-ok _ _ marked) (map_err-eq-ok _ _ ended)

  -- What a successful installation of `snapshot` makes of `m`.
  pub record Installs (m : LmdbStateMachine L) (metadata : SnapshotMetadata) (snapshot : L.Env)
      (m' : LmdbStateMachine L) : Type 0 where
    pub keys : L.contents m'.env kv ≡ L.contents snapshot kv
    pub applied : last_applied m' ≡ or_id metadata.last_included (last_applied m)
    pub marked : IncludedMarks metadata.last_included (L.contents m'.env)
    pub running : m'.running ≡ true
    pub described : m'.snapshot_meta ≡ some metadata
    pub terms : m'.entry_terms ≡ []

  advance-env : (id : Option LogId) (m : LmdbStateMachine L) → (advance id m).env ≡ m.env
  advance-env none m = refl
  advance-env (some id) m = refl

  advance-last_applied :
      (id : Option LogId) (m : LmdbStateMachine L)
      → last_applied (advance id m) ≡ or_id id (last_applied m)
  advance-last_applied none m = refl
  advance-last_applied (some id) m = refl

  restored-Installs :
      (m : LmdbStateMachine L) (metadata : SnapshotMetadata) (snapshot env : L.Env)
      → restore_blocking L m.env metadata (ok snapshot) ≡ ok env
      → Installs m metadata snapshot (restored (set_running false m) metadata (ok env)).0
  unfolding update_last_snapshot_metadata
  restored-Installs m metadata snapshot env e =
      let (keys, marked) = restore_blocking-copies m.env metadata snapshot e in
      let m1 : LmdbStateMachine L = record (set_running false m) { env = env } in
      let same = ap L.contents (advance-env metadata.last_included m1) in
      record {
        keys = ap (λ c. c kv) same ∙ keys;
        applied = advance-last_applied metadata.last_included m1;
        marked = subst (IncludedMarks metadata.last_included) (sym same) marked;
        running = refl;
        described = refl;
        terms = refl;
      }

  -- A successful installation of a snapshot leaves exactly the snapshot's keys, makes the last entry
  -- that it includes the last applied one, in memory and in the meta database, keeps its metadata,
  -- empties the term cache and resumes serving.
  pub apply_snapshot-Installs :
      (m : LmdbStateMachine L) (metadata : SnapshotMetadata) (snapshot : L.Env)
      → (apply_snapshot_from_file m metadata (ok snapshot) finished).1 ≡ ok tt
      → Installs m metadata snapshot (apply_snapshot_from_file m metadata (ok snapshot) finished).0
  unfolding apply_snapshot_from_file update_last_snapshot_metadata
  apply_snapshot-Installs m metadata snapshot h =
      elim (Result-cases (restore_blocking L m.env metadata (ok snapshot))) [
        | inl (env, e) ↦ rw (e, restored) (restored-Installs m metadata snapshot env e)
        | inr (x, e) ↦ cc (rw (e, restored) at h)
      ]

  generated-contents :
      (a : LmdbStateMachine L) (created : Result (Unit {0}) Bytes) (id : LogId) (task : Joined)
      (checksum : Bytes) {file : L.Env}
      → (generate_snapshot_data a created id task).1 ≡ ok (checksum, file)
      → L.contents file ≡ L.contents a.env
  unfolding generate_snapshot_data
  generated-contents a (err e) id task checksum h = cc
  generated-contents a (ok u) id (join_error e) checksum h = cc
  generated-contents a (ok u) id finished checksum h = laws.copy_contents a.env (ground arith)

  -- A snapshot that one machine generates and another installs, both with success, gives the
  -- other the keys of the first, with the entry for which it was generated as the last applied
  -- one.
  pub generate-apply_snapshot :
      (a b : LmdbStateMachine L) (created : Result (Unit {0}) Bytes) (id : LogId) (task : Joined)
      (checksum sum : Bytes) {file : L.Env}
      → (generate_snapshot_data a created id task).1 ≡ ok (checksum, file)
      → (apply_snapshot_from_file b
          (record { last_included = some id; checksum = sum })
          (ok file)
          finished).1
        ≡ ok tt
      → let b' =
          (apply_snapshot_from_file b
            (record { last_included = some id; checksum = sum })
            (ok file)
            finished).0 in
        (L.contents b'.env kv ≡ L.contents a.env kv) × (last_applied b' ≡ id)
  generate-apply_snapshot a b created id task checksum sum {file} g h =
      let metadata : SnapshotMetadata = record { last_included = some id; checksum = sum } in
      let installed = apply_snapshot-Installs b metadata file h in
      (
        installed.keys ∙ ap (λ c. c kv) (generated-contents a created id task checksum g),
        installed.applied,
      )

-- whether the task came to an end
abbrev pub is_finished : Joined → Bool
is_finished finished = true
is_finished (join_error e) = false

-- A machine serves again after `apply_snapshot_from_file`, whether the restore succeeded or failed,
-- exactly if the blocking task was joined; after a `JoinError` it stays stopped.
pub apply_snapshot-running :
    {L : Lmdb} (m : LmdbStateMachine L) (metadata : SnapshotMetadata)
    (opened : Result L.Env L.HeedError) (task : Joined)
    → (apply_snapshot_from_file m metadata opened task).0.running ≡ is_finished task
unfolding apply_snapshot_from_file update_last_snapshot_metadata
apply_snapshot-running m metadata opened finished = ground arith
apply_snapshot-running m metadata opened (join_error e) = refl
