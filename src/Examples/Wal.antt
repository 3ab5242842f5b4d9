-- ===== src/Examples/Wal.antt =====
-- Runs of the log.
use d_lmdb.Base.{
  ℕ, ◌<◌, ◌≤◌, ◌≡◌, refl, none, List, [], ◌∷◌, ok, arith, ltb, if◌then◌else◌, leb, some, Result,
  err,
}
use d_lmdb.Bytes.{Bytes, cmp, ascii}
use d_lmdb.Bytes.Word.{to_be, from_be}
use d_lmdb.Machine.Types.{LogId}
use d_lmdb.Store.{lookup, insert, without, last, within}
use d_lmdb.Lmdb.Memory.{memory, memory-IsLawful, empty}
use d_lmdb.Wal
use d_lmdb.Wal.Restart.{purge-new_forgets}
use d_lmdb.Wal.Reach.{Reached, created, persisted, cut, reopened, nothing_above_last_index}
use d_lmdb.Wal.{
  Codec, LmdbWal, put_entries, write_entries, persist_entries, truncate_log, truncate, purge_log,
  purge, load_purge_boundary, write_hard_state, save_hard_state, load_hard_state, collect,
  get_entries,
}
use d_lmdb.Lmdb.{log}
use d_lmdb.Wal.Fetch.{laid, since, up_to, Readable, get_entries_exact}
use d_lmdb.Wal.Purge.{purge-cuts}
use d_lmdb.Wal.Log.{stored_at, appended, InRange, persist_entries-appends, truncate-cuts}

abbrev read_plain : Bytes → Result (ℕ × Bytes) Bytes
read_plain [] = err (ascii "no index")
read_plain (i ∷ b) = ok (i, b)

-- entries that are a small index and a payload, stored one after the other
abbrev pub plain : Codec
plain = record {
  Entry = ℕ × Bytes;
  index = λ e. e.0;
  encode_entry = λ e. e.0 ∷ e.1;
  decode_entry = read_plain;
  encode_id = λ id. to_be 8 id.index;
  decode_id = λ b. ok (record { index = from_be b; term = 0 });
  HardState = Bytes;
  serialize = λ b. ok b;
  deserialize = λ b. ok b;
}

abbrev fresh : LmdbWal memory
fresh = record { env = empty; last_index = 0 }

abbrev three : List (ℕ × Bytes)
three = (1, 5 ∷ []) ∷ (2, 6 ∷ []) ∷ (2, 7 ∷ []) ∷ []

three_written : (persist_entries memory plain fresh three).1 ≡ ok tt
unfolding persist_entries write_entries put_entries to_be
three_written = refl

three-InRange : InRange plain three
three-InRange = omega arith

persist_entries-appends_example :
    stored_at (persist_entries memory plain fresh three).0 2
    ≡ appended plain three (stored_at fresh) 2
persist_entries-appends_example =
    persist_entries-appends memory-IsLawful plain fresh three 2 (omega arith) three-InRange
      three_written

cut_ok : (truncate memory plain (persist_entries memory plain fresh three).0 2).1 ≡ ok tt
unfolding truncate truncate_log persist_entries write_entries put_entries to_be without insert cmp
    last
cut_ok = refl

truncate-cuts_example :
    stored_at (truncate memory plain (persist_entries memory plain fresh three).0 2).0 1
    ≡ (if ltb 1 2 then stored_at (persist_entries memory plain fresh three).0 1 else none)
truncate-cuts_example =
    truncate-cuts memory-IsLawful plain (persist_entries memory plain fresh three).0 2 1
      (omega arith) (omega arith) cut_ok

abbrev second : LogId
second = record { index = 2; term = 0 }

abbrev logged : LmdbWal memory
logged = (persist_entries memory plain fresh three).0

purge_ok : (purge memory plain logged second).1 ≡ ok tt
unfolding purge purge_log persist_entries write_entries put_entries to_be without insert cmp last
purge_ok = refl

purge-cuts_example :
    stored_at (purge memory plain logged second).0 1
    ≡ (if leb 1 2 then none else stored_at logged 1)
purge-cuts_example =
    purge-cuts memory-IsLawful plain logged second 1 (omega arith) (omega arith) purge_ok

abbrev four : Bytes
four = 4 ∷ []

saved_ok : (save_hard_state memory plain fresh four).1 ≡ ok tt
unfolding save_hard_state write_hard_state
saved_ok = refl

loaded_ok :
    load_hard_state memory plain (save_hard_state memory plain fresh four).0 ≡ ok (some four)
unfolding save_hard_state write_hard_state load_hard_state lookup insert cmp
loaded_ok = refl

reads_back : (b : Bytes) → plain.serialize four ≡ ok b → plain.deserialize b ≡ ok four
reads_back b h = cc

abbrev both : List (ℕ × Bytes)
both = (1, 5 ∷ []) ∷ (2, 7 ∷ []) ∷ []

logged-laid : memory.contents logged.env log ≡ laid plain both
unfolding persist_entries write_entries put_entries to_be insert cmp
logged-laid = refl

both-Readable : Readable plain both
both-Readable = (refl, (refl, tt))

fetched_ok : get_entries memory plain logged 2 9 ≡ ok ((2, 7 ∷ []) ∷ [])
unfolding get_entries collect persist_entries write_entries put_entries to_be from_be insert cmp
    within
fetched_ok = refl

get_entries_exact_example : (2, 7 ∷ []) ∷ [] ≡ up_to plain 9 (since plain 2 both)
get_entries_exact_example =
    get_entries_exact memory-IsLawful plain logged 2 9 both (omega arith) (omega arith)
      both-Readable logged-laid fetched_ok

fresh_ok : Wal.new memory plain empty ≡ ok fresh
unfolding Wal.new last
fresh_ok = refl

-- three entries persisted, the last two cut off, the log opened again
abbrev shortened : LmdbWal memory
shortened = (truncate memory plain (persist_entries memory plain fresh three).0 2).0

reopened_ok : Wal.new memory plain shortened.env ≡ ok shortened
unfolding Wal.new truncate truncate_log persist_entries write_entries put_entries to_be without
    insert cmp last from_be
reopened_ok = refl

shortened-Reached : Reached plain shortened
shortened-Reached =
    reopened shortened reopened_ok
      (cut _ 2 (persisted fresh three three-InRange (created empty refl fresh_ok)))

above_one : shortened.last_index < 2
unfolding truncate truncate_log persist_entries write_entries put_entries to_be without insert cmp
    last from_be
above_one = omega arith

nothing_above_last_index_example : stored_at shortened 2 ≡ none
nothing_above_last_index_example =
    nothing_above_last_index plain memory-IsLawful shortened 2 shortened-Reached (omega arith)
      above_one

abbrev last_id : LogId
last_id = record { index = 1; term = 1 }

abbrev emptied : LmdbWal memory
emptied = (purge memory plain shortened last_id).0

emptied_ok : (purge memory plain shortened last_id).1 ≡ ok tt
unfolding purge purge_log truncate truncate_log persist_entries write_entries put_entries to_be
    without insert cmp last from_be
emptied_ok = refl

reach_one : shortened.last_index ≤ 1
unfolding truncate truncate_log persist_entries write_entries put_entries to_be without insert cmp
    last from_be
reach_one = omega arith

abbrev restarted : LmdbWal memory
restarted = record { env = emptied.env; last_index = 0 }

restarted_ok : Wal.new memory plain emptied.env ≡ ok restarted
unfolding Wal.new purge purge_log truncate truncate_log persist_entries write_entries put_entries
    to_be without insert cmp last from_be
restarted_ok = refl

purge-new_forgets_example : (emptied.last_index ≡ shortened.last_index) × (restarted.last_index ≡ 0)
purge-new_forgets_example =
    purge-new_forgets memory-IsLawful plain shortened last_id shortened-Reached reach_one
      (omega arith) emptied_ok restarted_ok
