-- ===== src/Machine/Apply/Progress.antt =====
-- `apply_chunk` (d-lmdb/src/state_machine.rs) where LMDB does what it is asked.
use d_lmdb.Base.{
  ℕ, ◌≡◌, refl, ap, ◌∙◌, Option, some, none, List, [], ◌∷◌, Result, ok, err, All, inl, inr,
  Bool-cases,
}
use d_lmdb.Bytes.{Bytes}
use d_lmdb.Lmdb.{Lmdb, kv, IsLawful}
use d_lmdb.Machine.Types.{
  LogId, BatchOp, Command, compare_and_swap, batch, noop, ApplyEntry, ApplyResult, success, failure,
  EngineError, LmdbStateMachine,
}
use d_lmdb.Machine.Apply.{
  cas_matches, Applied, apply_op, apply_ops, push_result, term_insert, apply_command, apply_entries,
  finish_chunk, apply_chunk,
}
use d_lmdb.Machine.Apply.Spec.{run_results, reads}
use d_lmdb.Machine.Apply.Chunk.{apply_chunk-Refines}

-- Transactions begin and commit, and operations on keys that `Takes` holds of go through.
pub record IsWilling (L : Lmdb) (Takes : Bytes → Type 0) : Type 0 where
  pub begins : (e : L.Env) → (t : L.Txn) × (L.write_txn e ≡ ok t)
  pub commits : (e : L.Env) (t : L.Txn) → (e' : L.Env) × (L.commit e t ≡ ok e')
  pub gets : (t : L.Txn) (k : Bytes) → Takes k → (r : Option Bytes) × (L.get t kv k ≡ ok r)
  pub puts : (t : L.Txn) (k v : Bytes) → Takes k → (t' : L.Txn) × (L.put t kv k v ≡ ok t')
  pub deletes : (t : L.Txn) (k : Bytes) → Takes k → (t' : L.Txn) × (L.delete t kv k ≡ ok t')

module _ (Takes : Bytes → Type 0) where
  abbrev pub TakesOp : BatchOp → Type 0
  TakesOp (BatchOp.insert k v) = Takes k
  TakesOp (BatchOp.delete k) = Takes k

  -- the keys of a command are taken
  abbrev pub TakesCommand : Command → Type 0
  TakesCommand (Command.insert k v ttl) = Takes k
  TakesCommand (Command.delete k) = Takes k
  TakesCommand (compare_and_swap k e v) = Takes k
  TakesCommand (batch ops) = All TakesOp ops
  TakesCommand noop = Unit

  abbrev pub TakesChunk : List ApplyEntry → Type 0
  TakesChunk chunk = All (λ e. TakesCommand e.command) chunk

module _ {L : Lmdb} (Takes : Bytes → Type 0) (willing : IsWilling L Takes) where
  op_succeeds :
      (t : L.Txn) (op : BatchOp) → TakesOp Takes op → (t' : L.Txn) × (apply_op L t op ≡ ok t')
  unfolding apply_op
  op_succeeds t (BatchOp.insert k v) h = let (t', e) = willing.puts t k v h in (t', rw e refl)
  op_succeeds t (BatchOp.delete k) h = let (t', e) = willing.deletes t k h in (t', rw e refl)

  ops_succeed :
      (t : L.Txn) (ops : List BatchOp)
      → All (TakesOp Takes) ops
      → (t' : L.Txn) × (apply_ops L t ops ≡ ok t')
  unfolding apply_ops
  ops_succeed t [] h = (t, refl)
  ops_succeed t (op ∷ ops) h =
      let (t1, e) = op_succeeds t op h.0 in
      let (t2, rest) = ops_succeed t1 ops h.1 in (t2, rw e rest)

  command_succeeds :
      (t : L.Txn) (i : ℕ) (c : Command)
      → TakesCommand Takes c
      → (a : L.Txn × ApplyResult) × (apply_command L t i c ≡ ok a)
  unfolding apply_command
  command_succeeds t i (Command.insert k v ttl) h =
      let (t', e) = willing.puts t k v h in ((t', success i), rw e refl)
  command_succeeds t i (Command.delete k) h =
      let (t', e) = willing.deletes t k h in ((t', success i), rw e refl)
  command_succeeds t i (compare_and_swap k expected v) h =
      let (current, e) = willing.gets t k h in
      elim (Bool-cases (cas_matches current expected)) [
        | inl matches ↦
            let (t', put) = willing.puts t k v h in ((t', success i), rw (e, matches, put) refl)
        | inr differs ↦ ((t, failure i), rw (e, differs) refl)
      ]
  command_succeeds t i (batch ops) h =
      let (t', e) = ops_succeed t ops h in ((t', success i), rw e refl)
  command_succeeds t i noop h = ((t, success i), refl)

  entries_succeed :
      (t : L.Txn) (chunk : List ApplyEntry) (terms : List (ℕ × ℕ)) (highest : Option LogId)
      → TakesChunk Takes chunk
      → (a : Applied L) × ((apply_entries L t chunk terms highest).1 ≡ ok a)
  unfolding apply_entries
  entries_succeed t [] terms highest h = ((t, [], highest), refl)
  entries_succeed t (entry ∷ chunk) terms highest h =
      let ((t1, r), e) = command_succeeds t entry.index entry.command h.0 in
      let id : LogId = record { index = entry.index; term = entry.term } in
      let ((t2, rs, last), rest) =
        entries_succeed t1 chunk (term_insert entry.index entry.term terms) (some id) h.1 in
      ((t2, r ∷ rs, last), rw (e, apply_entries) (ap (push_result L r) rest))

  finish_succeeds :
      (m : LmdbStateMachine L) (r : Result (Applied L) EngineError) (a : Applied L)
      → r ≡ ok a
      → (rs : List ApplyResult) × ((finish_chunk m r).1 ≡ ok rs)
  unfolding finish_chunk
  finish_succeeds m (err x) a h = cc
  finish_succeeds m (ok (t, rs, last)) a h =
      let (env, e) = willing.commits m.env t in (rs, rw (e, finish_chunk) refl)

  chunk_succeeds :
      (m : LmdbStateMachine L) (chunk : List ApplyEntry)
      → TakesChunk Takes chunk
      → (rs : List ApplyResult) × ((apply_chunk m chunk).1 ≡ ok rs)
  unfolding apply_chunk
  chunk_succeeds m chunk h =
      let (t, e) = willing.begins m.env in
      let (a, ran) = entries_succeed t chunk m.entry_terms none h in
      let (rs, finished) =
        finish_succeeds (record m { entry_terms = (apply_entries L t chunk m.entry_terms none).0 })
          _ a ran in
      (rs, rw (e, apply_chunk) finished)

  -- Over an LMDB that begins and commits its transactions and takes the keys of the chunk,
  -- `apply_chunk` succeeds, whatever the machine holds, and reports the verdicts of the
  -- specification in order.
  pub apply_chunk_succeeds :
      (laws : IsLawful L) (m : LmdbStateMachine L) (chunk : List ApplyEntry)
      → TakesChunk Takes chunk
      → (apply_chunk m chunk).1 ≡ ok (run_results chunk (reads m))
  apply_chunk_succeeds laws m chunk h =
      let (rs, e) = chunk_succeeds m chunk h in
      e ∙ ap ok (apply_chunk-Refines laws m chunk e).verdicts
