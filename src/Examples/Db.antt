-- ===== src/Examples/Db.antt =====
-- Runs of the reads and writes of the database, with one node as the cluster.
use d_lmdb.Base.{
  ◌≡◌, ◌+◌, ◌^◌, ◌-◌, ◌%◌, Option, refl, ap, Bool, true, false, some, none, List, [], ◌∷◌, Result,
  ok, err, inl, inr, ltb, if◌then◌else◌, Result-cases,
}
use d_lmdb.Bytes.{Bytes, ascii, cmp}
use d_lmdb.Bytes.Word.{from_be}
use d_lmdb.Store.{lookup, insert, erase}
use d_lmdb.Lmdb.Memory.{memory, memory-IsLawful}
use d_lmdb.Wire.{encode_raw, decode}
use d_lmdb.Machine.Types.{
  LmdbStateMachine, ApplyResult, EngineError, Command, BatchOp, compare_and_swap, success, failure,
}
use d_lmdb.Machine.Scan
use d_lmdb.Machine.Apply.{
  term_insert, apply_op, apply_ops, apply_command, apply_entries, finish_chunk, apply_chunk,
  remove_key, delete_local,
}
use d_lmdb.Machine.Apply.Spec.{reads, update}
use d_lmdb.Db.Types.{ClientApiError, other_client_error}
use d_lmdb.Db.Decode.{expired, decode_live_value, validate_key, validate_value}
use d_lmdb.Db.Read.Confirmed.{has_expired, get_confirmed_shows}
use d_lmdb.Db.Read.{DLmdb, get_confirmed, fetch_local, decode_and_reap, get}
use d_lmdb.Db.Read.Reap.{visible, shown_raw, SameFrom, get_shows}
use d_lmdb.Db.Read.Race.{one, reap_loses_write, reaped-replica_diverges}
use d_lmdb.Db.Write.Batch.{batched, visible-db_batch}
use d_lmdb.Db.Write.{db_batch, Request, put_with_ttl}
use d_lmdb.Db.Write.Effect.{to_command, Commits, put_with_ttl_shows}
use d_lmdb.Examples.{idle, filled, key_a, key_b}

abbrev pub World : Type 0
World = LmdbStateMachine memory

abbrev answer : Result (List ApplyResult) EngineError → Result Bool ClientApiError
answer (ok (failure i ∷ rs)) = ok false
answer (ok rs) = ok true
answer (err e) = err (other_client_error (ascii "not applied"))

-- a cluster of one node, which applies each request at once
abbrev pub submit : Request → World → World × Result Bool ClientApiError
submit r m = let (m', results) = apply_chunk m (one 1 1 (to_command r)) in (m', answer results)

pub commits : Commits (λ (m : World). m) submit
commits = record {
  applies = λ r m h. elim (Result-cases (apply_chunk m (one 1 1 (to_command r))).1) [
    | inl (rs, e) ↦ (1, 1, rs, ap (λ x. ((apply_chunk m (one 1 1 (to_command r))).0, x)) e)
    | inr (x, e) ↦ cc (rw e at h)
  ];
}

abbrev pub db : LmdbStateMachine memory → DLmdb memory
db m = record { state_machine = m; max_key_bytes = 4; max_value_bytes = 8 }

put_ttl_ok : (put_with_ttl submit (db idle) key_a (5 ∷ []) 60 1000 idle).1 ≡ ok tt
unfolding put_with_ttl validate_key validate_value apply_chunk apply_entries apply_command
    finish_chunk term_insert
put_ttl_ok = refl

put_forever_ok : (put_with_ttl submit (db idle) key_a (5 ∷ []) (2 ^ 64 - 1) 1000 idle).1 ≡ ok tt
unfolding put_with_ttl validate_key validate_value apply_chunk apply_entries apply_command
    finish_chunk term_insert
put_forever_ok = refl

abbrev long_key : Bytes
long_key = 1 ∷ 2 ∷ 3 ∷ 4 ∷ 5 ∷ []

-- what the key `b` of the filled machine holds: a value that expired at 9
abbrev pub stale : Bytes
stale = 1 ∷ 0 ∷ 0 ∷ 0 ∷ 0 ∷ 0 ∷ 0 ∷ 0 ∷ 9 ∷ 12 ∷ []

get_none : (get (db filled) key_b 9).1 ≡ ok none
unfolding get fetch_local Scan.get decode_and_reap decode_live_value decode from_be delete_local
    remove_key lookup cmp
get_none = refl

get_shows_example :
    (none ≡ visible (reads filled) 9 key_b)
    × SameFrom memory-IsLawful 9 (reads filled) (reads (get (db filled) key_b 9).0.state_machine)
get_shows_example = get_shows memory-IsLawful (db filled) key_b 9 get_none

deleted_ok : (delete_local filled key_b).1 ≡ ok tt
unfolding delete_local remove_key
deleted_ok = refl

pub is_stale : decode_live_value stale 9 ≡ ok expired
unfolding decode_live_value decode from_be
is_stale = refl

abbrev refreshed : LmdbStateMachine memory
refreshed = (apply_chunk filled (one 8 2 (Command.insert key_b (encode_raw (5 ∷ [])) 0))).0

refresh_ok :
    (apply_chunk filled (one 8 2 (Command.insert key_b (encode_raw (5 ∷ [])) 0))).1
    ≡ ok (success 8 ∷ [])
unfolding apply_chunk apply_entries apply_command finish_chunk term_insert encode_raw
refresh_ok = refl

reap_ok :
    (decode_and_reap (record (db filled) { state_machine = refreshed }) key_b (some stale) 9).1
    ≡ ok none
unfolding decode_and_reap decode_live_value decode from_be delete_local remove_key apply_chunk
    apply_entries apply_command finish_chunk term_insert encode_raw
reap_ok = refl

reap_loses_write_example :
    (visible
        (reads
          (decode_and_reap
            (record (db filled) { state_machine = refreshed })
            key_b
            (some stale)
            9).0.state_machine)
        9
        key_b
      ≡ none)
    × (visible (reads refreshed) 9 key_b ≡ some (5 ∷ []))
reap_loses_write_example =
    reap_loses_write memory-IsLawful (db filled) key_b stale (5 ∷ []) 9 8 2 0 is_stale refresh_ok
      reap_ok 9

kept_result :
    (apply_chunk filled (one 8 2 (compare_and_swap key_b none (0 ∷ [])))).1 ≡ ok (failure 8 ∷ [])
unfolding apply_chunk apply_entries apply_command finish_chunk term_insert lookup insert cmp
kept_result = refl

reaped_result :
    (apply_chunk (delete_local filled key_b).0 (one 8 2 (compare_and_swap key_b none (0 ∷ [])))).1
    ≡ ok (success 8 ∷ [])
unfolding apply_chunk apply_entries apply_command finish_chunk term_insert delete_local remove_key
    lookup insert erase cmp
reaped_result = refl

pub held_stale : reads filled key_b ≡ some stale
unfolding lookup cmp
held_stale = refl

reaped-replica_diverges_example :
    (visible (reads filled) 9 key_b ≡ none)
    × (visible (reads (delete_local filled key_b).0) 9 key_b ≡ none)
    × (failure 8 ∷ [] ≡ failure 8 ∷ [])
    × (success 8 ∷ [] ≡ success 8 ∷ [])
reaped-replica_diverges_example =
    reaped-replica_diverges memory-IsLawful filled key_b stale (0 ∷ []) 9 8 2 held_stale is_stale
      deleted_ok kept_result reaped_result

-- the last put of the key `a` stays, and the key `b` is deleted
abbrev ops : List BatchOp
ops = BatchOp.insert key_a (5 ∷ []) ∷ BatchOp.delete key_b ∷ BatchOp.insert key_a (6 ∷ []) ∷ []

batch_ok : (db_batch submit (db filled) ops filled).1 ≡ ok tt
unfolding db_batch apply_chunk apply_entries apply_command apply_ops apply_op finish_chunk
    encode_raw
batch_ok = refl

visible-db_batch_example :
    visible (reads (db_batch submit (db filled) ops filled).0) 100 key_a
    ≡ batched ops key_a (visible (reads filled) 100 key_a)
visible-db_batch_example =
    visible-db_batch memory-IsLawful (λ (m : World). m) submit commits (db filled) ops filled 100
      key_a batch_ok

put_with_ttl_shows_example :
    visible
      (reads (put_with_ttl submit (db idle) key_a (5 ∷ []) (2 ^ 64 - 1) 1000 idle).0)
      1000
      key_a
    ≡ (if ltb 1000 ((1000 + (2 ^ 64 - 1)) % 2 ^ 64) then some (5 ∷ []) else none)
put_with_ttl_shows_example =
    put_with_ttl_shows memory-IsLawful (λ (m : World). m) submit commits (db idle) key_a (5 ∷ [])
      (2 ^ 64 - 1) 1000 idle 1000 put_forever_ok

-- the engine answers a confirmed read with the expired bytes
abbrev told : Result (Option Bytes) ClientApiError
told = ok (some stale)

confirmed_none : (get_confirmed (db filled) key_b told 9).1 ≡ ok none
unfolding get_confirmed decode_and_reap decode_live_value decode from_be delete_local remove_key
confirmed_none = refl

get_confirmed_shows_example :
    (raw : Option Bytes) × (told ≡ ok raw)
    × (none ≡ shown_raw raw 9)
    × (reads (get_confirmed (db filled) key_b told 9).0.state_machine
        ≡ (if has_expired raw 9 then update (reads filled) key_b none else reads filled))
get_confirmed_shows_example =
    get_confirmed_shows memory-IsLawful (db filled) key_b told 9 confirmed_none
