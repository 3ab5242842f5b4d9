-- ===== src/Db/Write/Batch.antt =====
-- `batch` of d-lmdb/src/db.rs against what reads show.
use d_lmdb.Base.{
  ℕ, ◌≡◌, refl, ap, ◌∙◌, Option, some, none, List, [], ◌∷◌, map, Result, ok, Bool, Bool-cases, inl,
  inr, if◌then◌else◌,
}
use d_lmdb.Bytes.{Bytes, bytes_eq}
use d_lmdb.Lmdb.{Lmdb, IsLawful}
use d_lmdb.Wire.{encode_raw}
use d_lmdb.Machine.Types.{BatchOp, LmdbStateMachine}
use d_lmdb.Machine.Apply.Spec.{KeyValues, update, run_op, run_ops, reads}
use d_lmdb.Db.Types.{ClientApiError}
use d_lmdb.Db.Decode.Expiry.{shown, live-encode_raw}
use d_lmdb.Db.Read.{DLmdb}
use d_lmdb.Db.Read.Reap.{visible, shown_raw}
use d_lmdb.Db.Write.{Request, encode_op, db_batch}
use d_lmdb.Db.Write.Effect.{Commits}
use d_lmdb.Db.Write.Swap.{db_batch-reads}

-- what a key shows after operations in their order, where it showed `o` before
abbrev pub batched : List BatchOp → Bytes → Option Bytes → Option Bytes
batched [] k o = o
batched (BatchOp.insert j v ∷ ops) k o = batched ops k (if bytes_eq k j then some v else o)
batched (BatchOp.delete j ∷ ops) k o = batched ops k (if bytes_eq k j then none else o)

visible-update :
    (f : KeyValues) (j k : Bytes) (x : Option Bytes) (t : ℕ)
    → visible (update f j x) t k ≡ (if bytes_eq k j then shown_raw x t else visible f t k)
visible-update f j k x t = elim (Bool-cases (bytes_eq k j)) [
  | inl e ↦ rw e refl
  | inr e ↦ rw e refl
]

run_ops-batched :
    (ops : List BatchOp) (f : KeyValues) (t : ℕ) (k : Bytes)
    → visible (run_ops (map encode_op ops) f) t k ≡ batched ops k (visible f t k)
unfolding run_ops run_op
run_ops-batched [] f t k = refl
run_ops-batched (BatchOp.insert j v ∷ ops) f t k =
    run_ops-batched ops (update f j (some (encode_raw v))) t k
    ∙ ap (batched ops k) (
        visible-update f j k (some (encode_raw v)) t
        ∙ ap (λ o. if bytes_eq k j then o else visible f t k) (ap shown (live-encode_raw v t)))
run_ops-batched (BatchOp.delete j ∷ ops) f t k =
    run_ops-batched ops (update f j none) t k ∙ ap (batched ops k) (visible-update f j k none t)

module _ {W : Type 0} {L : Lmdb} (laws : IsLawful L) (machine : W → LmdbStateMachine L)
    (submit : Request → W → W × Result Bool ClientApiError) where
  -- After a successful `batch`, which the engine applied on this node, every key shows there, at any
  -- time, what the last operation on it put or deleted, and what it showed before where there is none.
  pub visible-db_batch :
      (commits : Commits machine submit) (d : DLmdb L) (ops : List BatchOp) (w : W) (t : ℕ)
      (k : Bytes)
      → (db_batch submit d ops w).1 ≡ ok tt
      → visible (reads (machine (db_batch submit d ops w).0)) t k
        ≡ batched ops k (visible (reads (machine w)) t k)
  visible-db_batch commits d ops w t k h =
      ap (λ f. visible f t k) (db_batch-reads laws machine submit commits d ops w h)
      ∙ run_ops-batched ops (reads (machine w)) t k
