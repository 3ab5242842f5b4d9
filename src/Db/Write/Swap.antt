-- ===== src/Db/Write/Swap.antt =====
-- The conditional writes of d-lmdb/src/db.rs, `put_if_absent` and `compare_and_swap`, and `delete`
-- and `batch`, as later reads see them. The engine's promises are hypotheses.
use d_lmdb.Base.{
  ℕ, ◌≡◌, refl, sym, ap, ◌∙◌, Bool, true, false, Option, some, none, List, [], ◌∷◌, map, Result, ok,
  Result-cases, inl, inr, if◌then◌else◌, ok-injective,
}
use d_lmdb.Bytes.{Bytes}
use d_lmdb.Bytes.Order.{bytes_eq_refl}
use d_lmdb.Lmdb.{Lmdb, IsLawful}
use d_lmdb.Machine.Types.{
  BatchOp, Command, compare_and_swap, LmdbStateMachine, ApplyResult, success, failure,
}
use d_lmdb.Machine.Apply.{apply_chunk}
use d_lmdb.Machine.Apply.Spec.{
  KeyValues, update, holds, verdict, accepts, run_ops, run_command, run_entries, run_results, reads,
}
use d_lmdb.Machine.Apply.Chunk.{apply_chunk-Refines}
use d_lmdb.Db.Types.{ClientApiError}
use d_lmdb.Db.Read.{DLmdb}
use d_lmdb.Db.Read.Reap.{visible}
use d_lmdb.Db.Read.Race.{one}
use d_lmdb.Db.Write.{Request, encode_op, send, send_unit, db_delete, db_batch}
use d_lmdb.Db.Write.Effect.{to_command, Commits}

abbrev pub is_success : ApplyResult → Bool
is_success (success i) = true
is_success (failure i) = false

-- A swap that the client answers has been applied on this node, as an entry of its own, and the
-- answer is its result.
pub record Reports {W : Type 0} {L : Lmdb} (machine : W → LmdbStateMachine L)
    (submit : Request → W → W × Result Bool ClientApiError) : Type 0 where
  pub swaps :
      (k : Bytes) (e : Option Bytes) (v : Bytes) (w : W) {b : Bool}
      → (submit (Request.compare_and_swap k e v) w).1 ≡ ok b
      → (i : ℕ) × (u : ℕ) × (r : ApplyResult) × (apply_chunk
            (machine w)
            (one i u (compare_and_swap k e v))
          ≡ (machine (submit (Request.compare_and_swap k e v) w).0, ok (r ∷ [])))
        × (b ≡ is_success r)

run_one : (i u : ℕ) (c : Command) (f : KeyValues) → run_entries (one i u c) f ≡ run_command c f
unfolding run_entries
run_one i u c f = refl

is_success-verdict : (b : Bool) (i : ℕ) → is_success (verdict b i) ≡ b
is_success-verdict true i = refl
is_success-verdict false i = refl

first_result :
    (i u : ℕ) (c : Command) (f : KeyValues) (r : ApplyResult)
    → r ∷ [] ≡ run_results (one i u c) f
    → is_success r ≡ accepts c f
unfolding run_results
first_result i u c f r h =
    let same : r ≡ verdict (accepts c f) i = cc in
    ap is_success same ∙ is_success-verdict (accepts c f) i

module _ {W : Type 0} {L : Lmdb} (laws : IsLawful L) (machine : W → LmdbStateMachine L)
    (submit : Request → W → W × Result Bool ClientApiError) where
  submitted-reads :
      (commits : Commits machine submit) (r : Request) (w : W) {b : Bool}
      → (submit r w).1 ≡ ok b
      → reads (machine (submit r w).0) ≡ run_command (to_command r) (reads (machine w))
  submitted-reads commits r w h =
      let (i, u, rs, applied) = commits.applies r w h in
      let after =
        apply_chunk-Refines laws (machine w) (one i u (to_command r)) (ap (λ p. p.1) applied) in
      ap (λ p. reads p.0) (sym applied)
      ∙ after.keys
      ∙ run_one i u (to_command r) (reads (machine w))

  sent-reads :
      (commits : Commits machine submit) (r : Request) (w : W)
      → (send_unit submit r w).1 ≡ ok tt
      → reads (machine (send_unit submit r w).0) ≡ run_command (to_command r) (reads (machine w))
  sent-reads commits r w h = elim (Result-cases (submit r w).1) [
    | inl (b, e) ↦ submitted-reads commits r w e
    | inr (x, e) ↦ cc (rw e at h)
  ]

  -- After a successful `delete`, which the engine applied on this node, the key shows nothing there.
  pub visible-db_delete :
      (commits : Commits machine submit) (d : DLmdb L) (k : Bytes) (w : W) (t : ℕ)
      → (db_delete submit d k w).1 ≡ ok tt
      → visible (reads (machine (db_delete submit d k w).0)) t k ≡ none
  unfolding db_delete run_command
  visible-db_delete commits d k w t h =
      ap (λ f. visible f t k) (sent-reads commits (Request.delete k) w h) ∙ rw (bytes_eq_refl k)

  -- After a successful `batch`, which the engine applied on this node, the operations have been done
  -- in their order, each insert with its payload encoded without an expiry.
  pub db_batch-reads :
      (commits : Commits machine submit) (d : DLmdb L) (ops : List BatchOp) (w : W)
      → (db_batch submit d ops w).1 ≡ ok tt
      → reads (machine (db_batch submit d ops w).0)
        ≡ run_ops (map encode_op ops) (reads (machine w))
  unfolding db_batch run_command
  db_batch-reads commits d ops w h = sent-reads commits (Request.batch (map encode_op ops)) w h

  -- what a swap answers, and what it leaves
  abbrev pub Swapped : Bytes → Option Bytes → Bytes → W → W → Bool → Type 0
  Swapped k e v w w' b =
      (b ≡ holds (reads (machine w) k) e)
      × (reads (machine w')
          ≡ (if b then update (reads (machine w)) k (some v) else reads (machine w)))

  pub sent_swap :
      (reports : Reports machine submit) (k : Bytes) (e : Option Bytes) (v : Bytes) (w : W)
      (b : Bool)
      → (send submit (Request.compare_and_swap k e v) w).1 ≡ ok b
      → Swapped k e v w (send submit (Request.compare_and_swap k e v) w).0 b
  unfolding accepts run_command
  sent_swap reports k e v w b h =
      elim (Result-cases (submit (Request.compare_and_swap k e v) w).1) [
        | inr (x, q) ↦ cc (rw q at h)
        | inl (a, q) ↦
            let (i, u, r, applied, answer) = reports.swaps k e v w q in
            let after =
              apply_chunk-Refines laws (machine w) (one i u (compare_and_swap k e v))
                (ap (λ p. p.1) applied) in
            let same : b ≡ a = sym (ok-injective a b (rw q at h)) in
            let verdict =
              same
              ∙ answer
              ∙ first_result i u (compare_and_swap k e v) (reads (machine w)) r after.verdicts in
            (
              verdict,
              ap (λ p. reads p.0) (sym applied)
                  ∙ after.keys
                  ∙ run_one i u (compare_and_swap k e v) (reads (machine w))
                  ∙ ap
                      (λ (x : Bool).
                        if x then update (reads (machine w)) k (some v) else reads (machine w))
                      (sym verdict),
            )
      ]
