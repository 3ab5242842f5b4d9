-- ===== src/Examples/Conditional.antt =====
-- Runs of the conditional writes, with one node as the cluster.
use d_lmdb.Base.{◌≡◌, refl, ap, Bool, true, false, some, none, List, [], ◌∷◌, Result, ok, err}
use d_lmdb.Bytes.{Bytes, ascii, bytes_eq, cmp}
use d_lmdb.Store.{lookup}
use d_lmdb.Lmdb.Memory.{memory-IsLawful}
use d_lmdb.Wire.{encode_raw}
use d_lmdb.Machine.Types.{ApplyResult, EngineError, compare_and_swap}
use d_lmdb.Machine.Apply.{apply_command, apply_entries, finish_chunk, apply_chunk}
use d_lmdb.Machine.Apply.Spec.{reads}
use d_lmdb.Db.Types.{ClientApiError, other_client_error}
use d_lmdb.Db.Read.Reap.{visible}
use d_lmdb.Db.Read.Race.{one}
use d_lmdb.Db.Write.{Request, put_if_absent, db_compare_and_swap}
use d_lmdb.Db.Write.Effect.{to_command}
use d_lmdb.Db.Write.Swap.{Reports, is_success}
use d_lmdb.Db.Write.Conditional.{put_if_absent-expired, compare_and_swap_shows}
use d_lmdb.Examples.{filled, key_b}
use d_lmdb.Examples.Db.{World, db, stale, is_stale, held_stale}

-- a cluster of one node, whose answer is the result of the one command
abbrev answer : Result (List ApplyResult) EngineError → Result Bool ClientApiError
answer (ok (r ∷ [])) = ok (is_success r)
answer (ok rs) = err (other_client_error (ascii "no single result"))
answer (err e) = err (other_client_error (ascii "not applied"))

abbrev pub submit : Request → World → World × Result Bool ClientApiError
submit r m = let (m', results) = apply_chunk m (one 1 1 (to_command r)) in (m', answer results)

single :
    (rs : Result (List ApplyResult) EngineError) {b : Bool}
    → answer rs ≡ ok b
    → (r : ApplyResult) × (rs ≡ ok (r ∷ [])) × (b ≡ is_success r)
single (ok (r ∷ [])) h = (r, refl, cc)
single (ok []) h = cc
single (ok (r ∷ s ∷ rs)) h = cc
single (err e) h = cc

pub reports : Reports (λ (m : World). m) submit
reports = record {
  swaps = λ k e v m h.
      let p = apply_chunk m (one 1 1 (compare_and_swap k e v)) in
      let (r, same, told) = single p.1 h in (1, 1, r, ap (λ x. (p.0, x)) same, told);
}

-- the key `b` of the filled machine holds a value that expired at 9
refused : (put_if_absent submit (db filled) key_b (5 ∷ []) filled).1 ≡ ok false
unfolding put_if_absent apply_chunk finish_chunk apply_entries apply_command lookup cmp
refused = refl

put_if_absent-expired_example :
    (visible (reads filled) 9 key_b ≡ none)
    × (false ≡ false)
    × (reads (put_if_absent submit (db filled) key_b (5 ∷ []) filled).0 ≡ reads filled)
    × (visible (reads (put_if_absent submit (db filled) key_b (5 ∷ []) filled).0) 9 key_b ≡ none)
put_if_absent-expired_example =
    put_if_absent-expired memory-IsLawful (λ (m : World). m) submit reports (db filled) key_b
      (5 ∷ []) stale filled 9 held_stale is_stale refused

abbrev key_a1 : Bytes
key_a1 = 97 ∷ 1 ∷ []

held_raw : reads filled key_a1 ≡ some (encode_raw (10 ∷ []))
unfolding lookup cmp encode_raw
held_raw = refl

swapped :
    (db_compare_and_swap submit (db filled) key_a1 (some (10 ∷ [])) (7 ∷ []) filled).1 ≡ ok true
unfolding db_compare_and_swap apply_chunk finish_chunk apply_entries apply_command lookup cmp
    encode_raw
swapped = refl

compare_and_swap_shows_example :
    (true ≡ bytes_eq (10 ∷ []) (10 ∷ []))
    × (visible
          (reads (db_compare_and_swap submit (db filled) key_a1 (some (10 ∷ [])) (7 ∷ []) filled).0)
          100
          key_a1
        ≡ some (7 ∷ []))
compare_and_swap_shows_example =
    compare_and_swap_shows memory-IsLawful (λ (m : World). m) submit reports (db filled) key_a1
      (10 ∷ []) (10 ∷ []) (7 ∷ []) filled 100 held_raw swapped
