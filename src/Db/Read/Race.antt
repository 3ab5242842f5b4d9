-- ===== src/Db/Read/Race.antt =====
-- The local delete of an expired value in d-lmdb/src/db.rs, with writes in between.
use d_lmdb.Base.{ℕ, ◌≡◌, ap, ◌∙◌, Option, some, none, List, [], ◌∷◌, ok}
use d_lmdb.Bytes.{Bytes}
use d_lmdb.Bytes.Order.{bytes_eq_refl}
use d_lmdb.Lmdb.{Lmdb, IsLawful}
use d_lmdb.Machine.Types.{
  LmdbStateMachine, Command, compare_and_swap, ApplyEntry, ApplyResult, success, failure,
}
use d_lmdb.Machine.Apply.{apply_chunk, delete_local}
use d_lmdb.Machine.Apply.Spec.{
  KeyValues, update, run_entries, run_results, run_command, accepts, reads,
}
use d_lmdb.Machine.Apply.Chunk.{apply_chunk-Refines}
use d_lmdb.Db.Decode.{expired, decode_live_value}
use d_lmdb.Db.Read.Reap.{visible, shown_raw, reaped_parts, delete_local-reads}
use d_lmdb.Db.Read.{DLmdb, decode_and_reap}
use d_lmdb.Db.Decode.Expiry.{shown, live-encode_raw}
use d_lmdb.Wire.{encode_raw}

abbrev pub one : ℕ → ℕ → Command → List ApplyEntry
one i u c = record { index = i; term = u; command = c } ∷ []

update_self : (f : KeyValues) (k : Bytes) (v : Option Bytes) → update f k v k ≡ v
update_self f k v = rw (bytes_eq_refl k)

pub run_insert :
    (i u : ℕ) (k v : Bytes) (ttl : ℕ) (f : KeyValues)
    → run_entries (one i u (Command.insert k v ttl)) f k ≡ some v
unfolding run_entries run_command
run_insert i u k v ttl f = update_self f k (some v)

-- Between the read of an expired value and its local delete, another thread applies an insert of a
-- live value. The delete then removes the new value: this replica shows nothing for the key at any
-- time, though the state to which the insert was applied shows the payload at any time.
pub reap_loses_write :
    {L : Lmdb} (laws : IsLawful L) (d : DLmdb L) (k raw p : Bytes) (now i u ttl : ℕ)
    {rs : List ApplyResult} {r : Option Bytes}
    → let m = (apply_chunk d.state_machine (one i u (Command.insert k (encode_raw p) ttl))).0 in
      decode_live_value raw now ≡ ok expired
      → (apply_chunk d.state_machine (one i u (Command.insert k (encode_raw p) ttl))).1 ≡ ok rs
      → (decode_and_reap (record d { state_machine = m }) k (some raw) now).1 ≡ ok r
      → (t : ℕ)
      → (visible
            (reads
              (decode_and_reap (record d { state_machine = m }) k (some raw) now).0.state_machine)
            t
            k
          ≡ none)
        × (visible (reads m) t k ≡ some p)
unfolding decode_and_reap
reap_loses_write laws d k raw p now i u ttl gone h reaping t =
    let chunk = one i u (Command.insert k (encode_raw p) ttl) in
    let m = (apply_chunk d.state_machine chunk).0 in
    let after = apply_chunk-Refines laws d.state_machine chunk h in
    let d' : DLmdb _ = record d { state_machine = m } in
    let (done, nothing, kept) = reaped_parts laws d' (delete_local m k) (rw gone at reaping) in
    let absent : reads (delete_local m k).0 k ≡ none =
      ap (λ f. f k) (delete_local-reads laws m k done) ∙ update_self (reads m) k none in
    (
      rw gone (ap (λ n. visible (reads n) t k) kept ∙ ap (λ o. shown_raw o t) absent),
      ap (λ o. shown_raw o t)
            (ap (λ f. f k) after.keys ∙ run_insert i u k (encode_raw p) ttl (reads d.state_machine))
          ∙ ap shown (live-encode_raw p t),
    )

put_if_absent_results :
    (i u : ℕ) (k v : Bytes) (f : KeyValues) (raw : Bytes)
    → f k ≡ some raw
    → run_results (one i u (compare_and_swap k none v)) f ≡ failure i ∷ []
unfolding run_results accepts
put_if_absent_results i u k v f raw h = rw h

put_if_absent_reaped :
    (i u : ℕ) (k v : Bytes) (f : KeyValues)
    → f k ≡ none
    → run_results (one i u (compare_and_swap k none v)) f ≡ success i ∷ []
unfolding run_results accepts
put_if_absent_reaped i u k v f h = rw h

-- A replica that has reaped an expired key and one that has not show the same at the key, nothing,
-- and yet they answer an entry of `put_if_absent` differently, with success and with failure.
pub reaped-replica_diverges :
    {L : Lmdb} (laws : IsLawful L) (m : LmdbStateMachine L) (k raw v : Bytes) (now i u : ℕ)
    {rs us : List ApplyResult}
    → reads m k ≡ some raw
    → decode_live_value raw now ≡ ok expired
    → (delete_local m k).1 ≡ ok tt
    → (apply_chunk m (one i u (compare_and_swap k none v))).1 ≡ ok rs
    → (apply_chunk (delete_local m k).0 (one i u (compare_and_swap k none v))).1 ≡ ok us
    → (visible (reads m) now k ≡ none)
      × (visible (reads (delete_local m k).0) now k ≡ none)
      × (rs ≡ failure i ∷ [])
      × (us ≡ success i ∷ [])
reaped-replica_diverges laws m k raw v now i u holds gone deleted h g =
    let a = apply_chunk-Refines laws m (one i u (compare_and_swap k none v)) h in
    let b = apply_chunk-Refines laws (delete_local m k).0 (one i u (compare_and_swap k none v)) g in
    let absent : reads (delete_local m k).0 k ≡ none =
      ap (λ f. f k) (delete_local-reads laws m k deleted) ∙ update_self (reads m) k none in
    (
      rw (holds, gone),
      rw absent,
      a.verdicts ∙ put_if_absent_results i u k v (reads m) raw holds,
      b.verdicts ∙ put_if_absent_reaped i u k v (reads (delete_local m k).0) absent,
    )
