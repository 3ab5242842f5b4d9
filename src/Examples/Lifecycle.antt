-- ===== src/Examples/Lifecycle.antt =====
-- Runs of opening, persisting, crashing and installing a snapshot.
use d_lmdb.Base.{true, ◌≡◌, refl, some, none, List, [], ◌∷◌, ok, arith}
use d_lmdb.Bytes.{cmp}
use d_lmdb.Bytes.Word.{to_le, from_le}
use d_lmdb.Store.{lookup, insert, within}
use d_lmdb.Lmdb.{kv}
use d_lmdb.Lmdb.Memory.{memory, memory-IsLawful}
use d_lmdb.Machine.Types.{
  LogId, SnapshotMetadata, LmdbStateMachine, ApplyEntry, success, failure, last_applied,
}
use d_lmdb.Machine.Apply.{term_insert, apply_command, apply_entries, finish_chunk, apply_chunk}
use d_lmdb.Machine.Apply.Spec.{reads}
use d_lmdb.Machine.Lifecycle.{
  u64_from_bytes, open_databases, new, put_last_applied, write_last_applied, persist_last_applied,
  copy_items, restore_blocking, persist_last_snapshot_metadata, apply_snapshot_from_file,
  generate_snapshot_data, finished, zero_checksum,
}
use d_lmdb.Machine.Lifecycle.Recovery.{Marks, persist_last_applied-new}
use d_lmdb.Machine.Lifecycle.Replay.{swaps, replay_diverges}
use d_lmdb.Machine.Lifecycle.Snapshots.{Installs, apply_snapshot-Installs, generate-apply_snapshot}
use d_lmdb.Examples.{idle, filled, holding, key_b}

abbrev nine : LogId
nine = record { index = 9; term = 3 }

abbrev seven : LogId
seven = record { index = 7; term = 2 }

-- the machine that `new` gives on the environment of another
abbrev opened : LmdbStateMachine memory → LmdbStateMachine memory
opened m = record {
  env = m.env;
  running = true;
  last_applied_index = m.last_applied_index;
  last_applied_term = m.last_applied_term;
  entry_terms = [];
  snapshot_meta = none;
  map_size = 1048576;
}

persisted_ok : (persist_last_applied filled nine).1 ≡ ok tt
unfolding persist_last_applied write_last_applied put_last_applied
persisted_ok = refl

opened_after :
    new memory (persist_last_applied filled nine).0.env 1048576
    ≡ ok (opened (persist_last_applied filled nine).0)
unfolding new open_databases persist_last_applied write_last_applied put_last_applied lookup insert
    cmp u64_from_bytes to_le from_le
opened_after = refl

persist_last_applied-new_example :
    (last_applied (opened (persist_last_applied filled nine).0) ≡ nine)
    × (memory.contents (opened (persist_last_applied filled nine).0).env kv
        ≡ memory.contents filled.env kv)
persist_last_applied-new_example =
    persist_last_applied-new memory-IsLawful filled nine 1048576 (omega arith) (omega arith)
      persisted_ok opened_after

abbrev twice : List ApplyEntry
twice = swaps 8 2 key_b (1 ∷ 0 ∷ 0 ∷ 0 ∷ 0 ∷ 0 ∷ 0 ∷ 0 ∷ 9 ∷ 12 ∷ []) (0 ∷ 1 ∷ []) (0 ∷ 2 ∷ [])

twice_results : (apply_chunk filled twice).1 ≡ ok (failure 8 ∷ success 9 ∷ [])
unfolding apply_chunk apply_entries apply_command finish_chunk term_insert lookup insert cmp
twice_results = refl

abbrev after_crash : LmdbStateMachine memory
after_crash = opened (record filled { env = (apply_chunk filled twice).0.env })

reopened : new memory (apply_chunk filled twice).0.env 1048576 ≡ ok after_crash
unfolding new open_databases apply_chunk apply_entries apply_command finish_chunk term_insert lookup
    insert cmp u64_from_bytes to_le from_le
reopened = refl

filled-Marks : Marks (memory.contents filled.env) seven
unfolding lookup cmp
filled-Marks = record { index = refl; term = refl }

rerun_results : (apply_chunk after_crash twice).1 ≡ ok (success 8 ∷ failure 9 ∷ [])
unfolding apply_chunk apply_entries apply_command finish_chunk term_insert lookup insert cmp
rerun_results = refl

held : reads filled key_b ≡ some (1 ∷ 0 ∷ 0 ∷ 0 ∷ 0 ∷ 0 ∷ 0 ∷ 0 ∷ 9 ∷ 12 ∷ [])
unfolding lookup cmp
held = refl

replay_diverges_example :
    (last_applied after_crash ≡ seven)
    × (reads (apply_chunk filled twice).0 key_b ≡ some (0 ∷ 1 ∷ []))
    × (reads (apply_chunk after_crash twice).0 key_b ≡ some (0 ∷ 2 ∷ []))
replay_diverges_example =
    replay_diverges memory-IsLawful filled seven 1048576 8 2 key_b
      (1 ∷ 0 ∷ 0 ∷ 0 ∷ 0 ∷ 0 ∷ 0 ∷ 0 ∷ 9 ∷ 12 ∷ []) (0 ∷ 1 ∷ []) (0 ∷ 2 ∷ []) (omega arith)
      (omega arith) filled-Marks held (λ h. cc) (λ h. cc) twice_results reopened rerun_results

abbrev metadata : SnapshotMetadata
metadata = record { last_included = some seven; checksum = zero_checksum }

installed : (apply_snapshot_from_file idle metadata (ok holding) finished).1 ≡ ok tt
unfolding apply_snapshot_from_file restore_blocking copy_items put_last_applied within
installed = refl

apply_snapshot-Installs_example :
    Installs memory-IsLawful idle metadata holding
      (apply_snapshot_from_file idle metadata (ok holding) finished).0
apply_snapshot-Installs_example =
    apply_snapshot-Installs memory-IsLawful idle metadata holding installed

generated_ok :
    (generate_snapshot_data filled (ok tt) seven finished).1 ≡ ok (zero_checksum, holding)
unfolding generate_snapshot_data persist_last_snapshot_metadata
generated_ok = refl

generate-apply_snapshot_example :
    let b' = (apply_snapshot_from_file idle metadata (ok holding) finished).0 in
    (memory.contents b'.env kv ≡ memory.contents filled.env kv) × (last_applied b' ≡ seven)
generate-apply_snapshot_example =
    generate-apply_snapshot memory-IsLawful filled idle (ok tt) seven finished zero_checksum
      zero_checksum generated_ok installed
