-- ===== src/Machine/Apply/Refine.antt =====
-- The loop of `apply_chunk` (d-lmdb/src/state_machine.rs) beside the specification.
use mathlib.Core.Path.{fun_ext, ap₂}
use d_lmdb.Base.{
  ℕ, ◌≡◌, refl, sym, ap, subst, ◌∙◌, ok-injective, Bool, true, false, Option, some, none, List, [],
  ◌∷◌, Result, ok, err, ◌>>=◌, if◌then◌else◌, arith, inl, inr, Result-cases, >>=-eq-ok,
  map_err-eq-ok,
}
use d_lmdb.Bytes.{Bytes}
use d_lmdb.Store.{lookup}
use d_lmdb.Store.Lookup.{lookup-insert, lookup-erase}
use d_lmdb.Lmdb.{Lmdb, DbName, kv, db_eq, IsLawful}
use d_lmdb.Machine.Types.{
  LogId, BatchOp, Command, compare_and_swap, batch, noop, ApplyEntry, ApplyResult, success, failure,
  EngineError, lmdb_err,
}
use d_lmdb.Machine.Apply.{
  Applied, push_result, term_insert, cas_matches, apply_op, apply_ops, apply_command, apply_entries,
}
use d_lmdb.Machine.Apply.Spec.{
  KeyValues, update, holds, run_op, run_ops, accepts, run_command, verdict, run_entries,
  run_results, latest,
}

module _ (L : Lmdb) (laws : IsLawful L) where
  abbrev pub at : L.Txn → KeyValues
  at t k = lookup k (L.view t kv)

  -- `t'` reads `f` in the kv database, and as `t` in the others
  pub record Moves (t : L.Txn) (f : KeyValues) (t' : L.Txn) : Type 0 where
    pub reads_as : at t' ≡ f
    pub others : (n : DbName) → db_eq n kv ≡ false → L.view t' n ≡ L.view t n

  put-Moves :
      (t : L.Txn) (k v : Bytes) {t' : L.Txn}
      → lmdb_err L (L.put t kv k v) ≡ ok t'
      → Moves t (update (at t) k (some v)) t'
  put-Moves t k v h =
      let changed = laws.put_changes t kv k v (map_err-eq-ok _ _ h) in
      record {
        reads_as = fun_ext λ j. ap (lookup j) (changed kv) ∙ lookup-insert k j v (L.view t kv);
        others = λ n e. ground (arith, changed n);
      }

  delete-Moves :
      (t : L.Txn) (k : Bytes) {t' : L.Txn}
      → lmdb_err L (L.delete t kv k) ≡ ok t'
      → Moves t (update (at t) k none) t'
  delete-Moves t k h =
      let changed = laws.delete_changes t kv k (map_err-eq-ok _ _ h) in
      record {
        reads_as = fun_ext λ j. ap (lookup j) (changed kv) ∙ lookup-erase k j (L.view t kv);
        others = λ n e. ground (arith, changed n);
      }

  stays : (t : L.Txn) → Moves t (at t) t
  stays t = record { reads_as = refl; others = λ n e. refl }

  follows :
      {t : L.Txn} {f : KeyValues} {t' t'' : L.Txn} (g : KeyValues → KeyValues)
      → Moves t f t'
      → Moves t' (g (at t')) t''
      → Moves t (g f) t''
  follows g p q = record {
    reads_as = q.reads_as ∙ ap g p.reads_as;
    others = λ n e. q.others n e ∙ p.others n e;
  }

  apply_op-Moves :
      (t : L.Txn) (op : BatchOp) {t' : L.Txn}
      → apply_op L t op ≡ ok t'
      → Moves t (run_op op (at t)) t'
  unfolding apply_op run_op
  apply_op-Moves t (BatchOp.insert k v) h = put-Moves t k v h
  apply_op-Moves t (BatchOp.delete k) h = delete-Moves t k h

  apply_ops-Moves :
      (t : L.Txn) (ops : List BatchOp) {t' : L.Txn}
      → apply_ops L t ops ≡ ok t'
      → Moves t (run_ops ops (at t)) t'
  unfolding apply_ops run_ops
  apply_ops-Moves t [] h = subst (λ u. Moves t (at t) u) (ok-injective t _ h) (stays t)
  apply_ops-Moves t (op ∷ ops) h =
      let (t1, first, rest) = >>=-eq-ok (apply_op L t op) (λ u. apply_ops L u ops) h in
      follows (run_ops ops) (apply_op-Moves t op first) (apply_ops-Moves t1 ops rest)

  -- The entry's arm moves the transaction as the specification says, and reports its verdict.
  Arm : L.Txn → ℕ → Command → L.Txn → ApplyResult → Type 0
  Arm t i c t' r = Moves t (run_command c (at t)) t' × (r ≡ verdict (accepts c (at t)) i)

  arm_ok :
      (t : L.Txn) {f : KeyValues} (t1 : L.Txn) (s : ApplyResult) {t' : L.Txn} {r : ApplyResult}
      → ◌≡◌ {A = Result (L.Txn × ApplyResult) EngineError} (ok (t1, s)) (ok (t', r))
      → Moves t f t1
      → Moves t f t' × (r ≡ s)
  arm_ok t {f} t1 s h m =
      let same = ok-injective (t1, s) _ h in
      (subst (λ u. Moves t f u) (ap (λ p. p.0) same) m, sym (ap (λ p. p.1) same))

  cas_matches-holds : (c e : Option Bytes) → cas_matches c e ≡ holds c e
  cas_matches-holds none none = refl
  cas_matches-holds none (some e) = refl
  cas_matches-holds (some c) none = refl
  cas_matches-holds (some c) (some e) = refl

  cas_arm :
      (t : L.Txn) (i : ℕ) (k v : Bytes) (b : Bool) {t' : L.Txn} {r : ApplyResult}
      → (if b
          then ◌>>=◌ {B = L.Txn × ApplyResult}
              (lmdb_err L (L.put t kv k v))
              (λ t1. ok (t1, success i))
          else ok (t, failure i))
        ≡ ok (t', r)
      → Moves t (if b then update (at t) k (some v) else at t) t' × (r ≡ verdict b i)
  cas_arm t i k v true h =
      let (t1, done, rest) = >>=-eq-ok (lmdb_err L (L.put t kv k v)) _ h in
      arm_ok t t1 (success i) rest (put-Moves t k v done)
  cas_arm t i k v false h = arm_ok t t (failure i) h (stays t)

  apply_command-Arm :
      (t : L.Txn) (i : ℕ) (c : Command) {t' : L.Txn} {r : ApplyResult}
      → apply_command L t i c ≡ ok (t', r)
      → Arm t i c t' r
  unfolding apply_command Arm run_command accepts
  apply_command-Arm t i (Command.insert k v ttl) h =
      let (t1, done, rest) = >>=-eq-ok (lmdb_err L (L.put t kv k v)) _ h in
      arm_ok t t1 (success i) rest (put-Moves t k v done)
  apply_command-Arm t i (Command.delete k) h =
      let (t1, done, rest) = >>=-eq-ok (lmdb_err L (L.delete t kv k)) _ h in
      arm_ok t t1 (success i) rest (delete-Moves t k done)
  apply_command-Arm t i (compare_and_swap k e v) h =
      let (current, got, rest) = >>=-eq-ok (lmdb_err L (L.get t kv k)) _ h in
      let found : holds (at t k) e ≡ cas_matches current e =
        ap (λ c. holds c e) (sym (laws.get_lookup t kv k (map_err-eq-ok _ _ got)))
        ∙ sym (cas_matches-holds current e) in
      rw found (cas_arm t i k v (cas_matches current e) rest)
  apply_command-Arm t i (batch ops) h =
      let (t1, done, rest) = >>=-eq-ok (apply_ops L t ops) _ h in
      arm_ok t t1 (success i) rest (apply_ops-Moves t ops done)
  apply_command-Arm t i noop h = arm_ok t t (success i) h (stays t)

  -- What a run of the loop over `chunk` has done when it ends well.
  pub record Ran (t : L.Txn) (chunk : List ApplyEntry) (highest : Option LogId) (a : Applied L)
      : Type 0 where
    pub moved : Moves t (run_entries chunk (at t)) a.0
    pub results : a.1 ≡ run_results chunk (at t)
    pub last : a.2 ≡ latest chunk highest

  push_result-ok :
      (r : ApplyResult) (rest : Result (Applied L) EngineError) {a : Applied L}
      → push_result L r rest ≡ ok a
      → (b : Applied L) × (rest ≡ ok b) × ((b.0, r ∷ b.1, b.2) ≡ a)
  push_result-ok r (ok (t, rs, highest)) h = ((t, rs, highest), refl, ok-injective _ _ h)
  push_result-ok r (err e) h = cc

  Ran-cons :
      (t : L.Txn) (entry : ApplyEntry) (chunk : List ApplyEntry) (highest : Option LogId)
      {t1 : L.Txn} {r : ApplyResult} {b : Applied L}
      → Arm t entry.index entry.command t1 r
      → Ran t1 chunk (some (record { index = entry.index; term = entry.term })) b
      → Ran t (entry ∷ chunk) highest (b.0, r ∷ b.1, b.2)
  unfolding Arm run_entries run_results latest
  Ran-cons t entry chunk highest {b = b} arm ran = record {
    moved = follows (run_entries chunk) arm.0 ran.moved;
    results = ap₂ (λ x xs. x ∷ xs) arm.1 (ran.results ∙ ap (run_results chunk) arm.0.reads_as);
    last = ran.last;
  }

  pub apply_entries-Ran :
      (t : L.Txn) (chunk : List ApplyEntry) (terms : List (ℕ × ℕ)) (highest : Option LogId)
      {a : Applied L}
      → (apply_entries L t chunk terms highest).1 ≡ ok a
      → Ran t chunk highest a
  unfolding apply_entries run_entries run_results latest
  apply_entries-Ran t [] terms highest h =
      subst (λ a. Ran t [] highest a) (ok-injective _ _ h)
        (record { moved = stays t; results = refl; last = refl })
  apply_entries-Ran t (entry ∷ chunk) terms highest {a} h =
      elim (Result-cases (apply_command L t entry.index entry.command)) [
        | inl ((t1, r), e) ↦
            let id : LogId = record { index = entry.index; term = entry.term } in
            let next =
              apply_entries L t1 chunk (term_insert entry.index entry.term terms) (some id) in
            let (b, ran, same) = push_result-ok r next.1 (rw (e, apply_entries) at h) in
            subst (λ u. Ran t (entry ∷ chunk) highest u) same
              (Ran-cons t entry chunk highest (apply_command-Arm t entry.index entry.command e) (
                apply_entries-Ran t1 chunk (term_insert entry.index entry.term terms) (some id)
                  ran))
        | inr (x, e) ↦ cc (rw (e, apply_entries) at h)
      ]
