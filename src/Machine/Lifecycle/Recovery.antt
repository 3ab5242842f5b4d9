-- ===== src/Machine/Lifecycle/Recovery.antt =====
-- What is read back after a restart.
use d_lmdb.Base.{
  ℕ, ◌<◌, ◌^◌, ◌≡◌, refl, sym, ap, subst, ◌∙◌, false, some, List, ok, arith, >>=-eq-ok,
  map_err-eq-ok, ok-injective, Result-cases, inl, inr,
}
use d_lmdb.Bytes.{cmp, bytes_eq}
use d_lmdb.Bytes.Word.{to_le, length-to_le, from_le-to_le}
use d_lmdb.Store.{Entries, lookup}
use d_lmdb.Store.Lookup.{lookup-insert, lookup-insert_self}
use d_lmdb.Lmdb.{Lmdb, DbName, kv, meta, internal, db_eq, IsLawful}
use d_lmdb.Machine.Types.{
  LogId, ApplyEntry, ApplyResult, LmdbStateMachine, last_applied_index_key, last_applied_term_key,
  lmdb_err, last_applied,
}
use d_lmdb.Machine.Apply.{apply_chunk}
use d_lmdb.Machine.Apply.Spec.{run_entries, reads}
use d_lmdb.Machine.Apply.Chunk.{apply_chunk-Refines}
use d_lmdb.Machine.Lifecycle.{
  u64_from_bytes, u64_or_zero, open_databases, new, put_last_applied, write_last_applied, persisted,
  persist_last_applied,
}

-- The meta database holds `id` as the last applied entry.
pub record Marks (contents : DbName → Entries) (id : LogId) : Type 0 where
  pub index : lookup last_applied_index_key (contents meta) ≡ some (to_le 8 id.index)
  pub term : lookup last_applied_term_key (contents meta) ≡ some (to_le 8 id.term)

pub u64_from_bytes-to_le : (n : ℕ) → n < 2 ^ 64 → u64_from_bytes (to_le 8 n) ≡ n
unfolding u64_from_bytes
u64_from_bytes-to_le n h = ground (arith, length-to_le 8 n, from_le-to_le 8 n h)

-- What `new` finds: the committed contents, and the last applied entry that they hold.
record Opened {L : Lmdb} (env : L.Env) (m : LmdbStateMachine L) : Type 0 where
  same : L.contents m.env ≡ L.contents env
  index : m.last_applied_index ≡ u64_or_zero (lookup last_applied_index_key (L.contents env meta))
  term : m.last_applied_term ≡ u64_or_zero (lookup last_applied_term_key (L.contents env meta))

keys_differ : bytes_eq last_applied_index_key last_applied_term_key ≡ false
unfolding cmp
keys_differ = refl

module _ {L : Lmdb} (laws : IsLawful L) where
  open_databases-reads :
      (t : L.Txn) {t' : L.Txn} {index term : ℕ}
      → open_databases L t ≡ ok (t', index, term)
      → (L.view t' ≡ L.view t)
        × (index ≡ u64_or_zero (lookup last_applied_index_key (L.view t meta)))
        × (term ≡ u64_or_zero (lookup last_applied_term_key (L.view t meta)))
  unfolding open_databases
  open_databases-reads t h =
      let (t1, c1, h1) = >>=-eq-ok (L.create_database t kv) _ h in
      let (t2, c2, h2) = >>=-eq-ok (L.create_database t1 meta) _ h1 in
      let (t3, c3, h3) = >>=-eq-ok (L.create_database t2 internal) _ h2 in
      let (i, g1, h4) = >>=-eq-ok (L.get t3 meta last_applied_index_key) _ h3 in
      let (u, g2, h5) = >>=-eq-ok (L.get t3 meta last_applied_term_key) _ h4 in
      let seen =
        laws.create_view t2 internal c3 ∙ laws.create_view t1 meta c2 ∙ laws.create_view t kv c1 in
      let out = ok-injective (t3, u64_or_zero i, u64_or_zero u) _ h5 in
      (
        ap L.view (sym (ap (λ p. p.0) out)) ∙ seen,
        sym (ap (λ p. p.1) out)
            ∙ ap u64_or_zero (laws.get_lookup t3 meta last_applied_index_key g1)
            ∙ ap (λ v. u64_or_zero (lookup last_applied_index_key (v meta))) seen,
        sym (ap (λ p. p.2) out)
            ∙ ap u64_or_zero (laws.get_lookup t3 meta last_applied_term_key g2)
            ∙ ap (λ v. u64_or_zero (lookup last_applied_term_key (v meta))) seen,
      )

  new-Opened :
      (env : L.Env) (map_size : ℕ) {m : LmdbStateMachine L}
      → new L env map_size ≡ ok m
      → Opened env m
  unfolding new
  new-Opened env map_size h =
      let (t, began, h1) = >>=-eq-ok (L.write_txn env) _ h in
      let (found, read, h2) = >>=-eq-ok (open_databases L t) _ h1 in
      let (env', ended, h3) = >>=-eq-ok (L.commit env found.0) _ h2 in
      let made = ok-injective _ _ h3 in
      let (seen, index, term) = open_databases-reads t read in
      let before = laws.write_view env began in
      record {
        same =
            ap (λ x. L.contents x.env) (sym made)
            ∙ laws.commit_contents env found.0 ended
            ∙ seen
            ∙ before;
        index =
            ap (λ x. x.last_applied_index) (sym made)
            ∙ index
            ∙ ap (λ v. u64_or_zero (lookup last_applied_index_key (v meta))) before;
        term =
            ap (λ x. x.last_applied_term) (sym made)
            ∙ term
            ∙ ap (λ v. u64_or_zero (lookup last_applied_term_key (v meta))) before;
      }

  -- A machine opened on contents that hold a last applied entry has that entry, and the contents.
  pub new-Marks :
      (env : L.Env) (map_size : ℕ) (id : LogId) {m : LmdbStateMachine L}
      → id.index < 2 ^ 64
      → id.term < 2 ^ 64
      → Marks (L.contents env) id
      → new L env map_size ≡ ok m
      → (last_applied m ≡ id) × (L.contents m.env ≡ L.contents env)
  new-Marks env map_size id {m} hi ht marks h =
      let o = new-Opened env map_size h in
      let index : m.last_applied_index ≡ id.index =
        o.index ∙ ap u64_or_zero marks.index ∙ u64_from_bytes-to_le id.index hi in
      let term : m.last_applied_term ≡ id.term =
        o.term ∙ ap u64_or_zero marks.term ∙ u64_from_bytes-to_le id.term ht in
      ((λ i. record { index = index i; term = term i }), o.same)

  pub put_last_applied-Marks :
      (t : L.Txn) (id : LogId) {t' : L.Txn}
      → put_last_applied L t id ≡ ok t'
      → Marks (L.view t') id × ((n : DbName) → db_eq n meta ≡ false → L.view t' n ≡ L.view t n)
  unfolding put_last_applied
  put_last_applied-Marks t id h =
      let (t1, p1, p2) = >>=-eq-ok (L.put t meta last_applied_index_key (to_le 8 id.index)) _ h in
      let first = laws.put_changes t meta last_applied_index_key (to_le 8 id.index) p1 in
      let second = laws.put_changes t1 meta last_applied_term_key (to_le 8 id.term) p2 in
      (
        record {
          index =
              ap (lookup last_applied_index_key) (second meta)
              ∙ lookup-insert last_applied_term_key last_applied_index_key (to_le 8 id.term)
                  (L.view t1 meta)
              ∙ rw keys_differ (
                  ap (lookup last_applied_index_key) (first meta)
                  ∙ lookup-insert_self last_applied_index_key (to_le 8 id.index) (L.view t meta));
          term =
              ap (lookup last_applied_term_key) (second meta)
              ∙ lookup-insert_self last_applied_term_key (to_le 8 id.term) (L.view t1 meta);
        },
        λ n e. ground (arith, first n, second n),
      )

  write_last_applied-Marks :
      (env : L.Env) (id : LogId) {env' : L.Env}
      → write_last_applied L env id ≡ ok env'
      → Marks (L.contents env') id × (L.contents env' kv ≡ L.contents env kv)
  unfolding write_last_applied
  write_last_applied-Marks env id h =
      let (t, began, h1) = >>=-eq-ok (lmdb_err L (L.write_txn env)) _ h in
      let (t', put, ended) = >>=-eq-ok (lmdb_err L (put_last_applied L t id)) _ h1 in
      let (marks, others) = put_last_applied-Marks t id (map_err-eq-ok _ _ put) in
      let committed = laws.commit_contents env t' (map_err-eq-ok _ _ ended) in
      let before = laws.write_view env (map_err-eq-ok _ _ began) in
      (
        subst (λ c. Marks c id) (sym committed) marks,
        ap (λ c. c kv) committed ∙ others kv refl ∙ ap (λ c. c kv) before,
      )

  -- After a successful `persist_last_applied` of an entry with index and term in 64 bits, a
  -- machine that `new` opens on the environment has the persisted entry as its last applied one,
  -- and the keys that were there.
  pub persist_last_applied-new :
      (m : LmdbStateMachine L) (id : LogId) (map_size : ℕ) {n : LmdbStateMachine L}
      → id.index < 2 ^ 64
      → id.term < 2 ^ 64
      → (persist_last_applied m id).1 ≡ ok tt
      → new L (persist_last_applied m id).0.env map_size ≡ ok n
      → (last_applied n ≡ id) × (L.contents n.env kv ≡ L.contents m.env kv)
  unfolding persist_last_applied
  persist_last_applied-new m id map_size {n} hi ht h opened =
      elim (Result-cases (write_last_applied L m.env id)) [
        | inl (env, e) ↦
            let (marks, keys) = write_last_applied-Marks m.env id e in
            let (applied, same) =
              new-Marks env map_size id hi ht marks (rw (e, persisted) at opened) in
            (applied, ap (λ c. c kv) same ∙ keys)
        | inr (x, e) ↦ cc (rw (e, persisted) at h)
      ]

  -- A crash after a chunk that succeeded: nothing of it was persisted in the meta database, so
  -- where that holds an entry with index and term in 64 bits, a machine that `new` opens on the
  -- environment has the keys after the chunk, and that entry from before it as the last applied
  -- one.
  pub crash-new :
      (m : LmdbStateMachine L) (chunk : List ApplyEntry) (id : LogId) (map_size : ℕ)
      {results : List ApplyResult} {n : LmdbStateMachine L}
      → id.index < 2 ^ 64
      → id.term < 2 ^ 64
      → Marks (L.contents m.env) id
      → (apply_chunk m chunk).1 ≡ ok results
      → new L (apply_chunk m chunk).0.env map_size ≡ ok n
      → (last_applied n ≡ id) × (reads n ≡ run_entries chunk (reads m))
  crash-new m chunk id map_size {n = n} hi ht marks h opened =
      let after = apply_chunk-Refines laws m chunk h in
      let kept : Marks (L.contents (apply_chunk m chunk).0.env) id = record {
        index = ap (lookup last_applied_index_key) (after.others meta refl) ∙ marks.index;
        term = ap (lookup last_applied_term_key) (after.others meta refl) ∙ marks.term;
      } in
      let (applied, same) = new-Marks (apply_chunk m chunk).0.env map_size id hi ht kept opened in
      (applied, ap (λ c k. lookup k (c kv)) same ∙ after.keys)
