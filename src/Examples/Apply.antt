-- ===== src/Examples/Apply.antt =====
-- Runs of `apply_chunk`.
use d_lmdb.Base.{false, ◌≡◌, ◌≢◌, refl, ◌++◌, [], ◌∷◌, ok, err}
use d_lmdb.Bytes.{cmp, Bytes, ascii}
use d_lmdb.Store.{lookup, insert, erase}
use d_lmdb.Lmdb.Memory.{memory, memory-IsLawful, bad_key, checked_ok}
use d_lmdb.Machine.Types.{success, failure, state_machine_error}
use d_lmdb.Machine.Apply.{
  term_insert, apply_op, apply_ops, apply_command, apply_entries, finish_chunk, apply_chunk,
}
use d_lmdb.Machine.Apply.Spec.{reads, run_results}
use d_lmdb.Machine.Apply.Progress.{IsWilling, TakesChunk, apply_chunk_succeeds}
use d_lmdb.Machine.Apply.Chunk.{Refines, apply_chunk-Refines}
use d_lmdb.Machine.Apply.Replicas.{replicas-agree}
use d_lmdb.Machine.Apply.Failure.{
  SameButTerms, apply_chunk-atomic, Refuses, poison, apply_chunk_blocked,
}
use d_lmdb.Examples.{idle, first_chunk, second_chunk}

first_results : (apply_chunk idle first_chunk).1 ≡ ok (success 1 ∷ success 2 ∷ failure 3 ∷ [])
unfolding apply_chunk apply_entries apply_command apply_op apply_ops finish_chunk term_insert lookup
    insert erase cmp
first_results = refl

second_results :
    (apply_chunk (apply_chunk idle first_chunk).0 second_chunk).1 ≡ ok (success 4 ∷ success 5 ∷ [])
unfolding apply_chunk apply_entries apply_command apply_op apply_ops finish_chunk term_insert lookup
    insert erase cmp
second_results = refl

joint_results :
    (apply_chunk idle (first_chunk ++ second_chunk)).1
    ≡ ok (success 1 ∷ success 2 ∷ failure 3 ∷ success 4 ∷ success 5 ∷ [])
unfolding apply_chunk apply_entries apply_command apply_op apply_ops finish_chunk term_insert lookup
    insert erase cmp
joint_results = refl

apply_chunk-Refines_example :
    Refines idle first_chunk
      (apply_chunk idle first_chunk).0
      (success 1 ∷ success 2 ∷ failure 3 ∷ [])
apply_chunk-Refines_example = apply_chunk-Refines memory-IsLawful idle first_chunk first_results

replicas-agree_example :
    (reads (apply_chunk idle first_chunk).0
      ≡ reads (apply_chunk (record idle { running = false }) first_chunk).0)
    × (success 1 ∷ success 2 ∷ failure 3 ∷ [] ≡ success 1 ∷ success 2 ∷ failure 3 ∷ [])
unfolding apply_chunk apply_entries apply_command apply_op apply_ops finish_chunk term_insert lookup
    insert erase cmp
replicas-agree_example =
    replicas-agree memory-IsLawful memory-IsLawful idle (record idle { running = false })
      first_chunk refl first_results refl

-- LMDB in memory refuses the empty key, and with it the whole chunk that it stands in.
refuses_empty : Refuses memory []
refuses_empty t v t' h = cc

bad_results :
    (apply_chunk idle
      (first_chunk ++ (poison memory [] refuses_empty 4 1 (1 ∷ []) 0 ∷ second_chunk))).1
    ≡ err (state_machine_error (ascii "MDB_BAD_VALSIZE"))
unfolding apply_chunk apply_entries apply_command apply_op apply_ops finish_chunk term_insert lookup
    insert erase cmp
bad_results = refl

apply_chunk-atomic_example :
    SameButTerms idle
      (apply_chunk idle
        (first_chunk ++ (poison memory [] refuses_empty 4 1 (1 ∷ []) 0 ∷ second_chunk))).0
apply_chunk-atomic_example =
    apply_chunk-atomic idle
      (first_chunk ++ (poison memory [] refuses_empty 4 1 (1 ∷ []) 0 ∷ second_chunk)) bad_results

apply_chunk_blocked_example :
    (apply_chunk idle
      (first_chunk ++ (poison memory [] refuses_empty 4 1 (1 ∷ []) 0 ∷ second_chunk))).1
    ≢ ok []
apply_chunk_blocked_example =
    apply_chunk_blocked memory [] refuses_empty 4 1 (1 ∷ []) 0 idle first_chunk second_chunk []

-- LMDB in memory takes the keys that are neither empty nor too long.
abbrev Takes : Bytes → Type 0
Takes k = bad_key k ≡ false

memory-IsWilling : IsWilling memory Takes
memory-IsWilling = record {
  begins = λ e. (e, refl);
  commits = λ e t. (t, refl);
  gets = λ t k h. (_, checked_ok k _ h);
  puts = λ t k v h. (_, checked_ok k _ h);
  deletes = λ t k h. (_, checked_ok k _ h);
}

first_taken : TakesChunk Takes first_chunk
first_taken = (refl, (refl, (refl, tt)))

apply_chunk_succeeds_example :
    (apply_chunk idle first_chunk).1 ≡ ok (run_results first_chunk (reads idle))
apply_chunk_succeeds_example =
    apply_chunk_succeeds Takes memory-IsWilling memory-IsLawful idle first_chunk first_taken
