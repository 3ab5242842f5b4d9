-- ===== src/Machine/Apply.antt =====
-- `apply_chunk` and `delete_local` of d-lmdb/src/state_machine.rs.
pub mod Spec
pub mod Refine
pub mod Chunk
pub mod Failure
pub mod Progress
pub mod Replicas
use Prim.Native.Nat.{compare, Ordering}
use Prim.Native.Nat.Ordering.{lt, eq, gt}
use d_lmdb.Base.{
  ℕ, Bool, true, false, Option, some, none, List, [], ◌∷◌, Result, ok, err, ◌>>=◌, map_ok,
  if◌then◌else◌,
}
use d_lmdb.Bytes.{Bytes, bytes_eq}
use d_lmdb.Lmdb.{Lmdb, kv}
use d_lmdb.Machine.Types.{
  LogId, BatchOp, Command, compare_and_swap, batch, noop, ApplyEntry, ApplyResult, success, failure,
  EngineError, LmdbStateMachine, lmdb_err, update_last_applied, with_env,
}

-- `BTreeMap::insert`
unfoldable pub term_insert : ℕ → ℕ → List (ℕ × ℕ) → List (ℕ × ℕ)
term_insert i t [] = (i, t) ∷ []
term_insert i t ((j, u) ∷ m) = elim (compare i j) [
  | lt ↦ (i, t) ∷ (j, u) ∷ m
  | eq ↦ (i, t) ∷ m
  | gt ↦ (j, u) ∷ term_insert i t m
]

-- the `match (current, expected)` of a compare-and-swap
abbrev pub cas_matches : Option Bytes → Option Bytes → Bool
cas_matches none none = true
cas_matches (some c) (some e) = bytes_eq c e
cas_matches _ _ = false

module _ (L : Lmdb) where
  unfoldable pub apply_op : L.Txn → BatchOp → Result L.Txn EngineError
  apply_op t (BatchOp.insert key value) = lmdb_err L (L.put t kv key value)
  apply_op t (BatchOp.delete key) = lmdb_err L (L.delete t kv key)

  unfoldable pub apply_ops : L.Txn → List BatchOp → Result L.Txn EngineError
  apply_ops t [] = ok t
  apply_ops t (op ∷ ops) = do t' ← apply_op t op; apply_ops t' ops

  -- the transaction of `delete_local`
  unfoldable pub remove_key : L.Env → Bytes → Result L.Env EngineError
  remove_key env key = do
    t ← lmdb_err L (L.write_txn env)
    t' ← lmdb_err L (L.delete t kv key)
    lmdb_err L (L.commit env t')

  -- the arm of `match &entry.command`, with the result for the entry's index
  unfoldable pub apply_command : L.Txn → ℕ → Command → Result (L.Txn × ApplyResult) EngineError
  apply_command t i (Command.insert key value ttl_secs) = do
    t' ← lmdb_err L (L.put t kv key value)
    ok (t', success i)
  apply_command t i (Command.delete key) = do
    t' ← lmdb_err L (L.delete t kv key)
    ok (t', success i)
  apply_command t i (compare_and_swap key expected value) = do
    current ← lmdb_err L (L.get t kv key)
    if cas_matches current expected
        then (do t' ← lmdb_err L (L.put t kv key value); ok (t', success i))
        else ok (t, failure i)
  apply_command t i (batch ops) = do t' ← apply_ops t ops; ok (t', success i)
  apply_command t i noop = ok (t, success i)

  abbrev pub Applied : Type 0
  Applied = L.Txn × List ApplyResult × Option LogId

  abbrev pub push_result : ApplyResult → Result Applied EngineError → Result Applied EngineError
  push_result r (ok (t, rs, highest)) = ok (t, r ∷ rs, highest)
  push_result r (err e) = err e

  -- `for entry in chunk`: the term cache is written as the loop goes, also where a later entry
  -- fails; `?` leaves the loop at once.
  unfoldable pub apply_entries :
      L.Txn
      → List ApplyEntry
      → List (ℕ × ℕ)
      → Option LogId
      → List (ℕ × ℕ) × Result Applied EngineError
  apply_entries t [] terms highest = (terms, ok (t, [], highest))
  apply_entries t (entry ∷ chunk) terms highest = elim (apply_command t entry.index entry.command) [
    | err e ↦ (terms, err e)
    | ok (t', r) ↦
        let id : LogId = record { index = entry.index; term = entry.term } in
        let (terms', rest) =
          apply_entries t' chunk (term_insert entry.index entry.term terms) (some id) in
        (terms', push_result r rest)
  ]

module _ {L : Lmdb} where
  abbrev pub advance : Option LogId → LmdbStateMachine L → LmdbStateMachine L
  advance (some id) m = update_last_applied id m
  advance none m = m

  -- after the loop: commit, then the last applied entry
  unfoldable pub finish_chunk :
      LmdbStateMachine L
      → Result (Applied L) EngineError
      → LmdbStateMachine L × Result (List ApplyResult) EngineError
  finish_chunk m (err e) = (m, err e)
  finish_chunk m (ok (t, results, highest)) = elim (lmdb_err L (L.commit m.env t)) [
    | err e ↦ (m, err e)
    | ok env ↦ (advance highest (record m { env = env }), ok results)
  ]

  unfoldable pub apply_chunk :
      LmdbStateMachine L
      → List ApplyEntry
      → LmdbStateMachine L × Result (List ApplyResult) EngineError
  apply_chunk m chunk = elim (lmdb_err L (L.write_txn m.env)) [
    | err e ↦ (m, err e)
    | ok t ↦
        let (terms, r) = apply_entries L t chunk m.entry_terms none in
        finish_chunk (record m { entry_terms = terms }) r
  ]

  unfoldable pub delete_local :
      LmdbStateMachine L → Bytes → LmdbStateMachine L × Result (Unit {0}) EngineError
  delete_local m key = with_env m (remove_key L m.env key)
