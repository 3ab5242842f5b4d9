-- ===== src/Machine/Apply/Failure.antt =====
-- `apply_chunk` (d-lmdb/src/state_machine.rs) when an operation of LMDB fails.
use d_lmdb.Base.{
  ℕ, ◌≡◌, ◌≢◌, refl, Option, none, List, [], ◌∷◌, ◌++◌, Result, ok, err, inl, inr, Result-cases,
  >>=-eq-ok, map_err-eq-ok, arith,
}
use d_lmdb.Bytes.{Bytes}
use d_lmdb.Lmdb.{Lmdb, kv}
use d_lmdb.Machine.Types.{
  LogId, Command, ApplyEntry, ApplyResult, EngineError, LmdbStateMachine, lmdb_err,
}
use d_lmdb.Machine.Apply.{
  Applied, push_result, apply_command, apply_entries, finish_chunk, apply_chunk,
}

-- `m'` differs from `m` in its term cache at most.
pub record SameButTerms {L : Lmdb} (m m' : LmdbStateMachine L) : Type 0 where
  pub env : m'.env ≡ m.env
  pub index : m'.last_applied_index ≡ m.last_applied_index
  pub term : m'.last_applied_term ≡ m.last_applied_term
  pub running : m'.running ≡ m.running
  pub snapshot : m'.snapshot_meta ≡ m.snapshot_meta
  pub map_size : m'.map_size ≡ m.map_size

-- A chunk that fails, at whatever entry or at the commit, changes nothing but the term cache.
pub apply_chunk-atomic :
    {L : Lmdb} (m : LmdbStateMachine L) (chunk : List ApplyEntry) {e : EngineError}
    → (apply_chunk m chunk).1 ≡ err e
    → SameButTerms m (apply_chunk m chunk).0
unfolding apply_chunk finish_chunk
apply_chunk-atomic m chunk h = ground arith

module _ (L : Lmdb) where
  push_result-ok :
      (r : ApplyResult) (rest : Result (Applied L) EngineError) {a : Applied L}
      → push_result L r rest ≡ ok a
      → (b : Applied L) × (rest ≡ ok b)
  push_result-ok r (ok b) h = (b, refl)
  push_result-ok r (err e) h = cc

-- LMDB refuses every put of the key, as it does for an empty key and for one that is too long.
abbrev pub Refuses : (L : Lmdb) → Bytes → Type 0
Refuses L k = (t : L.Txn) (v : Bytes) (t' : L.Txn) → L.put t kv k v ≢ ok t'

module _ (L : Lmdb) (k : Bytes) (refuses : Refuses L k) (i u : ℕ) (v : Bytes) (ttl : ℕ) where
  finish_blocked :
      (m : LmdbStateMachine L) (r : Result (Applied L) EngineError) {results : List ApplyResult}
      → ((a : Applied L) → r ≢ ok a)
      → (finish_chunk m r).1 ≡ ok results
      → ⊥
  unfolding finish_chunk
  finish_blocked m (ok a) never h = never a refl
  finish_blocked m (err e) never h = cc

  abbrev pub poison : ApplyEntry
  poison = record { index = i; term = u; command = Command.insert k v ttl }

  command_blocked :
      (t : L.Txn) (a : L.Txn × ApplyResult) → apply_command L t i (Command.insert k v ttl) ≢ ok a
  unfolding apply_command
  command_blocked t a h =
      let (t', put, rest) = >>=-eq-ok (lmdb_err L (L.put t kv k v)) _ h in
      refuses t v t' (map_err-eq-ok _ _ put)

  entries_blocked :
      (t : L.Txn) (before after : List ApplyEntry) (terms : List (ℕ × ℕ)) (highest : Option LogId)
      (a : Applied L)
      → (apply_entries L t (before ++ (poison ∷ after)) terms highest).1 ≢ ok a
  unfolding apply_entries
  entries_blocked t [] after terms highest a h =
      elim (Result-cases (apply_command L t i (Command.insert k v ttl))) [
        | inl (b, e) ↦ command_blocked t b e
        | inr (x, e) ↦ cc (rw (e, apply_entries) at h)
      ]
  entries_blocked t (entry ∷ before) after terms highest a h =
      elim (Result-cases (apply_command L t entry.index entry.command)) [
        | inl ((t1, r), e) ↦
            let (b, ran) = push_result-ok L r _ (rw (e, apply_entries) at h) in
            entries_blocked t1 before after _ _ b ran
        | inr (x, e) ↦ cc (rw (e, apply_entries) at h)
      ]

  -- A chunk with an insert of a key that LMDB refuses never succeeds, whatever stands around it.
  pub apply_chunk_blocked :
      (m : LmdbStateMachine L) (before after : List ApplyEntry) (results : List ApplyResult)
      → (apply_chunk m (before ++ (poison ∷ after))).1 ≢ ok results
  unfolding apply_chunk finish_chunk
  apply_chunk_blocked m before after results h =
      elim (Result-cases (lmdb_err L (L.write_txn m.env))) [
        | inl (t, e) ↦
            finish_blocked
              (record m {
                entry_terms = (apply_entries L t (before ++ (poison ∷ after)) m.entry_terms none).0;
              })
              (apply_entries L t (before ++ (poison ∷ after)) m.entry_terms none).1
              (entries_blocked t before after m.entry_terms none) (rw (e, apply_chunk) at h)
        | inr (x, e) ↦ cc (rw (e, apply_chunk) at h)
      ]
