-- ===== src/Machine/Apply/Chunk.antt =====
-- A call of `apply_chunk` (d-lmdb/src/state_machine.rs) that succeeds.
use d_lmdb.Base.{
  ℕ, ◌≡◌, refl, ap, subst, ◌∙◌, ok-injective, false, Option, some, none, List, Result, ok, err, inl,
  inr, Result-cases, map_err-eq-ok,
}
use d_lmdb.Store.{lookup}
use d_lmdb.Lmdb.{Lmdb, DbName, kv, db_eq, IsLawful}
use d_lmdb.Machine.Types.{
  LogId, ApplyEntry, ApplyResult, EngineError, LmdbStateMachine, lmdb_err, last_applied,
}
use d_lmdb.Machine.Apply.{Applied, apply_entries, advance, finish_chunk, apply_chunk}
use d_lmdb.Machine.Apply.Spec.{run_entries, run_results, latest, reads}
use d_lmdb.Machine.Apply.Refine.{at, Moves, Ran, apply_entries-Ran}

abbrev pub or_id : Option LogId → LogId → LogId
or_id (some id) old = id
or_id none old = old

-- `m'` is `m` after `chunk`, with `results` reported: the keys as the specification leaves them,
-- its verdicts, the last entry as the last applied one, and all else as before.
pub record Refines {L : Lmdb} (m : LmdbStateMachine L) (chunk : List ApplyEntry)
    (m' : LmdbStateMachine L) (results : List ApplyResult) : Type 0 where
  pub keys : reads m' ≡ run_entries chunk (reads m)
  pub verdicts : results ≡ run_results chunk (reads m)
  pub applied : last_applied m' ≡ or_id (latest chunk none) (last_applied m)
  pub others : (n : DbName) → db_eq n kv ≡ false → L.contents m'.env n ≡ L.contents m.env n
  pub status : m'.running ≡ m.running
  pub snapshot : m'.snapshot_meta ≡ m.snapshot_meta

module _ {L : Lmdb} (laws : IsLawful L) where
  module _ (m : LmdbStateMachine L) (chunk : List ApplyEntry) (t : L.Txn) (terms : List (ℕ × ℕ))
      (began : L.view t ≡ L.contents m.env) where
    keys_of :
        (t' : L.Txn) (env : L.Env)
        → L.contents env ≡ L.view t'
        → Moves L laws t (run_entries chunk (at L laws t)) t'
        → (λ k. lookup k (L.contents env kv)) ≡ run_entries chunk (reads m)
    keys_of t' env ended moved =
        ap (λ v k. lookup k (v kv)) ended
        ∙ moved.reads_as
        ∙ ap (λ v. run_entries chunk (λ k. lookup k (v kv))) began

    others_of :
        (t' : L.Txn) (env : L.Env)
        → L.contents env ≡ L.view t'
        → Moves L laws t (run_entries chunk (at L laws t)) t'
        → (n : DbName) → db_eq n kv ≡ false
        → L.contents env n ≡ L.contents m.env n
    others_of t' env ended moved n e = ap (λ v. v n) ended ∙ moved.others n e ∙ ap (λ v. v n) began

    committed :
        (t' : L.Txn) (rs : List ApplyResult) (highest : Option LogId) (env : L.Env)
        → L.contents env ≡ L.view t'
        → Ran L laws t chunk none (t', rs, highest)
        → Refines m chunk (advance highest (record m { entry_terms = terms; env = env })) rs
    committed t' rs (some id) env ended ran = record {
      keys = keys_of t' env ended ran.moved;
      verdicts = ran.results ∙ ap (λ v. run_results chunk (λ k. lookup k (v kv))) began;
      applied = ap (λ o. or_id o (last_applied m)) ran.last;
      others = others_of t' env ended ran.moved;
      status = refl;
      snapshot = refl;
    }
    committed t' rs none env ended ran = record {
      keys = keys_of t' env ended ran.moved;
      verdicts = ran.results ∙ ap (λ v. run_results chunk (λ k. lookup k (v kv))) began;
      applied = ap (λ o. or_id o (last_applied m)) ran.last;
      others = others_of t' env ended ran.moved;
      status = refl;
      snapshot = refl;
    }

    finish_Refines :
        (r : Result (Applied L) EngineError) {results : List ApplyResult}
        → ((a : Applied L) → r ≡ ok a → Ran L laws t chunk none a)
        → (finish_chunk (record m { entry_terms = terms }) r).1 ≡ ok results
        → Refines m chunk (finish_chunk (record m { entry_terms = terms }) r).0 results
    unfolding finish_chunk
    finish_Refines (err e) ran h = cc
    finish_Refines (ok (t', rs, highest)) {results} ran h =
        elim (Result-cases (lmdb_err L (L.commit m.env t'))) [
          | inl (env, e) ↦
              rw (e, finish_chunk)
                (subst
                  (λ x.
                    Refines m chunk (advance highest (record m { entry_terms = terms; env = env }))
                      x)
                  (ok-injective rs results (rw (e, finish_chunk) at h))
                  (committed t' rs highest env (laws.commit_contents m.env t' (map_err-eq-ok _ _ e))
                    (ran (t', rs, highest) refl)))
          | inr (x, e) ↦ cc (rw (e, finish_chunk) at h)
        ]

  -- Whenever `apply_chunk` succeeds, it has done to the keys what the entries say, one after the
  -- other, it reports their verdicts in order, the last entry is the last applied one, and the
  -- other databases, the running flag and the snapshot metadata are as before.
  pub apply_chunk-Refines :
      (m : LmdbStateMachine L) (chunk : List ApplyEntry) {results : List ApplyResult}
      → (apply_chunk m chunk).1 ≡ ok results
      → Refines m chunk (apply_chunk m chunk).0 results
  unfolding apply_chunk
  apply_chunk-Refines m chunk h = elim (Result-cases (lmdb_err L (L.write_txn m.env))) [
    | inl (t, e) ↦
        rw (e, apply_chunk)
          (finish_Refines m chunk t _ (laws.write_view m.env (map_err-eq-ok _ _ e))
            (apply_entries L t chunk m.entry_terms none).1
            (λ a. apply_entries-Ran L laws t chunk m.entry_terms none) (rw (e, apply_chunk) at h))
    | inr (x, e) ↦ cc (rw (e, apply_chunk) at h)
  ]
