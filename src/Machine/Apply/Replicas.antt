-- ===== src/Machine/Apply/Replicas.antt =====
-- Replicas, and the division of the log into chunks, for d-lmdb/src/state_machine.rs.
use d_lmdb.Base.{◌≡◌, refl, sym, ap, ◌∙◌, Option, some, none, List, [], ◌∷◌, ◌++◌, ok}
use mathlib.Core.Path.{ap₂}
use d_lmdb.Lmdb.{Lmdb, IsLawful}
use d_lmdb.Machine.Types.{LogId, ApplyEntry, ApplyResult, LmdbStateMachine, last_applied}
use d_lmdb.Machine.Apply.{apply_chunk}
use d_lmdb.Machine.Apply.Spec.{
  KeyValues, run_command, run_entries, run_results, verdict, accepts, latest, reads,
}
use d_lmdb.Machine.Apply.Chunk.{apply_chunk-Refines, or_id}

-- Two replicas, over whatever lawful stores, that hold the same keys and both succeed in
-- applying the same entries hold the same keys after it and have reported the same results.
pub replicas-agree :
    {L M : Lmdb} (laws : IsLawful L) (laws' : IsLawful M) (m : LmdbStateMachine L)
    (n : LmdbStateMachine M) (chunk : List ApplyEntry) {rs us : List ApplyResult}
    → reads m ≡ reads n
    → (apply_chunk m chunk).1 ≡ ok rs
    → (apply_chunk n chunk).1 ≡ ok us
    → (reads (apply_chunk m chunk).0 ≡ reads (apply_chunk n chunk).0) × (rs ≡ us)
replicas-agree laws laws' m n chunk same h k =
    let a = apply_chunk-Refines laws m chunk h in
    let b = apply_chunk-Refines laws' n chunk k in
    (
      a.keys ∙ ap (run_entries chunk) same ∙ sym b.keys,
      a.verdicts ∙ ap (run_results chunk) same ∙ sym b.verdicts,
    )

run_entries-append :
    (xs ys : List ApplyEntry) (f : KeyValues)
    → run_entries (xs ++ ys) f ≡ run_entries ys (run_entries xs f)
unfolding run_entries
run_entries-append [] ys f = refl
run_entries-append (x ∷ xs) ys f = run_entries-append xs ys (run_command x.command f)

run_results-append :
    (xs ys : List ApplyEntry) (f : KeyValues)
    → run_results (xs ++ ys) f ≡ run_results xs f ++ run_results ys (run_entries xs f)
unfolding run_results run_entries
run_results-append [] ys f = refl
run_results-append (x ∷ xs) ys f =
    ap (λ r. verdict (accepts x.command f) x.index ∷ r)
      (run_results-append xs ys (run_command x.command f))

latest-some :
    (ys : List ApplyEntry) (x a b : LogId)
    → or_id (latest ys (some x)) a ≡ or_id (latest ys (some x)) b
unfolding latest
latest-some [] x a b = refl
latest-some (y ∷ ys) x a b = latest-some ys (record { index = y.index; term = y.term }) a b

latest-append :
    (xs ys : List ApplyEntry) (o : Option LogId) (id : LogId)
    → or_id (latest (xs ++ ys) o) id ≡ or_id (latest ys none) (or_id (latest xs o) id)
unfolding latest
latest-append [] [] o id = refl
latest-append [] (y ∷ ys) o id = latest-some ys _ id (or_id o id)
latest-append (x ∷ xs) ys o id =
    latest-append xs ys (some (record { index = x.index; term = x.term })) id

-- How the log is cut into chunks does not matter: where all the calls succeed, two chunks one
-- after the other have the effect on the keys, the results and the last applied entry of the one
-- that joins them.
pub apply_chunk-append :
    {L : Lmdb} (laws : IsLawful L) (m : LmdbStateMachine L) (xs ys : List ApplyEntry)
    {rs us ws : List ApplyResult}
    → (apply_chunk m xs).1 ≡ ok rs
    → (apply_chunk (apply_chunk m xs).0 ys).1 ≡ ok us
    → (apply_chunk m (xs ++ ys)).1 ≡ ok ws
    → (reads (apply_chunk (apply_chunk m xs).0 ys).0 ≡ reads (apply_chunk m (xs ++ ys)).0)
      × (rs ++ us ≡ ws)
      × (last_applied (apply_chunk (apply_chunk m xs).0 ys).0
          ≡ last_applied (apply_chunk m (xs ++ ys)).0)
apply_chunk-append laws m xs ys h k j =
    let a = apply_chunk-Refines laws m xs h in
    let b = apply_chunk-Refines laws (apply_chunk m xs).0 ys k in
    let c = apply_chunk-Refines laws m (xs ++ ys) j in
    (
      b.keys ∙ ap (run_entries ys) a.keys ∙ sym (run_entries-append xs ys (reads m)) ∙ sym c.keys,
      ap₂ ◌++◌ a.verdicts (b.verdicts ∙ ap (run_results ys) a.keys)
          ∙ sym (run_results-append xs ys (reads m))
          ∙ sym c.verdicts,
      b.applied
          ∙ ap (or_id (latest ys none)) a.applied
          ∙ sym (latest-append xs ys none (last_applied m))
          ∙ sym c.applied,
    )
