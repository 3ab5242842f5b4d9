-- ===== src/Db/Read/Reap.antt =====
-- What a point read of d-lmdb/src/db.rs shows, and the reaping of expired values.
use mathlib.Core.Path.{fun_ext}
use d_lmdb.Base.{
  ℕ, ◌≤◌, ◌≡◌, refl, sym, ap, ◌∙◌, Option, some, none, Result, ok, err, >>=-eq-ok, map_err-eq-ok,
  ok-injective, Result-cases, Bool-cases, inl, inr,
}
use d_lmdb.Bytes.{Bytes, bytes_eq}
use d_lmdb.Bytes.Order.{eq_of_bytes_eq}
use d_lmdb.Store.{lookup}
use d_lmdb.Store.Lookup.{lookup-erase}
use d_lmdb.Lmdb.{Lmdb, kv, IsLawful}
use d_lmdb.Machine.Types.{LmdbStateMachine, EngineError, lmdb_err}
use d_lmdb.Machine.Apply.{delete_local, remove_key}
use d_lmdb.Machine.Apply.Spec.{KeyValues, update, reads}
use d_lmdb.Machine.Scan
use d_lmdb.Db.Types.{Error}
use d_lmdb.Db.Decode.{DecodedValue, present, expired, decode_live_value}
use d_lmdb.Db.Decode.Expiry.{shown, expired_mono}
use d_lmdb.Db.Read.{DLmdb, reap, reaped, decode_and_reap, get, fetch_local}

-- what a read at `now` shows for a key
abbrev pub shown_raw : Option Bytes → ℕ → Option Bytes
shown_raw (some raw) now = shown (decode_live_value raw now)
shown_raw none now = none

abbrev pub visible : KeyValues → ℕ → Bytes → Option Bytes
visible f now k = shown_raw (f k) now

module _ {L : Lmdb} (laws : IsLawful L) where
  pub get-lookup :
      (m : LmdbStateMachine L) (k : Bytes) {r : Option Bytes} → Scan.get m k ≡ ok r → r ≡ reads m k
  unfolding Scan.get
  get-lookup m k h =
      let (t, began, h1) = >>=-eq-ok (lmdb_err L (L.read_txn m.env)) _ h in
      laws.get_lookup t kv k (map_err-eq-ok _ _ h1)
      ∙ ap (λ v. lookup k (v kv)) (laws.read_view m.env (map_err-eq-ok _ _ began))

  remove_key-reads :
      (env : L.Env) (k : Bytes) {env' : L.Env}
      → remove_key L env k ≡ ok env'
      → (λ j. lookup j (L.contents env' kv)) ≡ update (λ j. lookup j (L.contents env kv)) k none
  unfolding remove_key
  remove_key-reads env k h =
      let (t, began, h1) = >>=-eq-ok (lmdb_err L (L.write_txn env)) _ h in
      let (t', deleted, ended) = >>=-eq-ok (lmdb_err L (L.delete t kv k)) _ h1 in
      ap (λ v j. lookup j (v kv)) (laws.commit_contents env t' (map_err-eq-ok _ _ ended))
      ∙ ap (λ m j. lookup j m) (laws.delete_changes t kv k (map_err-eq-ok _ _ deleted) kv)
      ∙ fun_ext (λ j. lookup-erase k j (L.view t kv))
      ∙ ap (λ v. update (λ j. lookup j (v kv)) k none)
          (laws.write_view env (map_err-eq-ok _ _ began))

  -- A successful local delete removes the key, and nothing else.
  pub delete_local-reads :
      (m : LmdbStateMachine L) (k : Bytes)
      → (delete_local m k).1 ≡ ok tt
      → reads (delete_local m k).0 ≡ update (reads m) k none
  unfolding delete_local
  delete_local-reads m k h = elim (Result-cases (remove_key L m.env k)) [
    | inl (env, e) ↦ rw e (remove_key-reads m.env k e)
    | inr (x, e) ↦ cc (rw e at h)
  ]

  -- Dropping a key that has expired changes nothing that a later read can show.
  visible-update :
      (f : KeyValues) (k raw : Bytes) (now later : ℕ) (j : Bytes)
      → f k ≡ some raw
      → decode_live_value raw now ≡ ok expired
      → now ≤ later
      → visible (update f k none) later j ≡ visible f later j
  visible-update f k raw now later j holds gone le = elim (Bool-cases (bytes_eq j k)) [
    | inl e ↦ rw (e, eq_of_bytes_eq j k e, holds, expired_mono raw now later le gone)
    | inr e ↦ rw e
  ]

  -- Reads from `now` on show the same before and after.
  abbrev pub SameFrom : ℕ → KeyValues → KeyValues → Type 0
  SameFrom now f g = (later : ℕ) (j : Bytes) → now ≤ later → visible g later j ≡ visible f later j

  pub reaped_parts :
      (d : DLmdb L) (p : LmdbStateMachine L × Result (Unit {0}) EngineError) {r : Option Bytes}
      → (reaped d p).1 ≡ ok r
      → (p.1 ≡ ok tt) × (r ≡ none) × ((reaped d p).0.state_machine ≡ p.0)
  reaped_parts d (m, ok u) h = (refl, sym (ok-injective _ _ h), refl)
  reaped_parts d (m, err e) h = cc

  reap_shows :
      (d : DLmdb L) (k raw : Bytes) (now : ℕ) (v : Result DecodedValue Error) {r : Option Bytes}
      → reads d.state_machine k ≡ some raw
      → decode_live_value raw now ≡ v
      → (reap d k v).1 ≡ ok r
      → (r ≡ shown v) × SameFrom now (reads d.state_machine) (reads (reap d k v).0.state_machine)
  reap_shows d k raw now (ok (present p)) holds e h = (sym (ok-injective _ _ h), λ later j le. refl)
  reap_shows d k raw now (err x) holds e h = cc
  reap_shows d k raw now (ok expired) holds e h =
      let (done, nothing, kept) = reaped_parts d (delete_local d.state_machine k) h in
      (
        nothing,
        λ later j le.
            ap (λ m. visible (reads m) later j) kept
            ∙ ap (λ f. visible f later j) (delete_local-reads d.state_machine k done)
            ∙ visible-update (reads d.state_machine) k raw now later j holds e le,
      )

  decode_and_reap_shows :
      (d : DLmdb L) (k : Bytes) (raw : Option Bytes) (now : ℕ) {r : Option Bytes}
      → raw ≡ reads d.state_machine k
      → (decode_and_reap d k raw now).1 ≡ ok r
      → (r ≡ shown_raw raw now)
        × SameFrom now (reads d.state_machine) (reads (decode_and_reap d k raw now).0.state_machine)
  unfolding decode_and_reap
  decode_and_reap_shows d k none now holds h = (sym (ok-injective _ _ h), λ later j le. refl)
  decode_and_reap_shows d k (some raw) now holds h =
      reap_shows d k raw now (decode_live_value raw now) (sym holds) refl h

  -- A successful `get` returns what is live under the key at the time of the read. What it reaps on
  -- the way is invisible: every later read of any key shows what it would have shown without it.
  pub get_shows :
      (d : DLmdb L) (k : Bytes) (now : ℕ) {r : Option Bytes}
      → (get d k now).1 ≡ ok r
      → (r ≡ visible (reads d.state_machine) now k)
        × SameFrom now (reads d.state_machine) (reads (get d k now).0.state_machine)
  unfolding get
  get_shows d k now h = elim (Result-cases (Scan.get d.state_machine k)) [
    | inl (raw, e) ↦
        let found = get-lookup d.state_machine k e in
        let (shows, same) = decode_and_reap_shows d k raw now found (rw (e, fetch_local) at h) in
        (shows ∙ ap (λ o. shown_raw o now) found, rw (e, fetch_local) same)
    | inr (x, e) ↦ cc (rw (e, fetch_local) at h)
  ]
