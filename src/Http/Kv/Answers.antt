-- ===== src/Http/Kv/Answers.antt =====
-- What `get_handler` of d-lmdb-server/src/http/kv.rs answers.
use d_lmdb.Base.{
  ℕ, ◌≡◌, refl, ap, subst, ◌∙◌, ◌⊎◌, inl, inr, Option, some, none, Result, ok, err, arith,
  Result-cases,
}
use d_lmdb.Bytes.{Bytes}
use d_lmdb.Lmdb.{Lmdb, IsLawful}
use d_lmdb.Wire.{Value, raw, ttl, decode}
use d_lmdb.Machine.Types.{LmdbStateMachine, EngineError}
use d_lmdb.Machine.Apply.{delete_local}
use d_lmdb.Machine.Apply.Spec.{reads}
use d_lmdb.Machine.Scan
use d_lmdb.Db.Types.{ClientApiError, Error, engine, storage}
use d_lmdb.Db.Decode.{DecodedValue, present, expired, live_of, decode_live_value}
use d_lmdb.Db.Read
use d_lmdb.Db.Read.{DLmdb, reaped, reap, decode_and_reap, fetch_local}
use d_lmdb.Db.Read.Reap.{visible, get_shows}
use d_lmdb.Http.Error.{internal_server_error, from_error}
use d_lmdb.Http.Response.{Response, with_retry_after, into_response}
use d_lmdb.Http.Kv.{
  ConsistencyLevel, eventual, Context, error_response, value_response, get_handler,
}

-- the outcomes that a local read can have
abbrev IsLocal : {A : Type 0} → Result A Error → Type 0
IsLocal (ok a) = Unit
IsLocal (err (engine e)) = Unit
IsLocal (err (storage e)) = Unit
IsLocal (err _) = ⊥

live_of-IsLocal : (r : Result Value (Unit {0})) (now : ℕ) → IsLocal (live_of r now)
live_of-IsLocal (ok (raw p)) now = tt
live_of-IsLocal (ok (ttl e p)) now = ground arith
live_of-IsLocal (err u) now = tt

reap-IsLocal :
    {L : Lmdb} (d : DLmdb L) (k : Bytes) (v : Result DecodedValue Error)
    → IsLocal v
    → IsLocal (reap d k v).1
reap-IsLocal d k (ok (present p)) h = tt
reap-IsLocal d k (ok expired) h = reaped-IsLocal d (delete_local d.state_machine k)
  where
    reaped-IsLocal :
        {L : Lmdb} (d : DLmdb L) (p : LmdbStateMachine L × Result (Unit {0}) EngineError)
        → IsLocal (reaped d p).1
    reaped-IsLocal d (m, ok u) = tt
    reaped-IsLocal d (m, err x) = tt
reap-IsLocal d k (err e) h = h

get-IsLocal : {L : Lmdb} (d : DLmdb L) (k : Bytes) (now : ℕ) → IsLocal (Read.get d k now).1
unfolding Read.get
get-IsLocal d k now = elim (Result-cases (Scan.get d.state_machine k)) [
  | inl (some bytes, e) ↦ rw (e, fetch_local) (decoded-IsLocal d k bytes now)
  | inl (none, e) ↦ rw (e, fetch_local) (unfold decode_and_reap in tt)
  | inr (x, e) ↦ rw (e, fetch_local) tt
]
  where
    decoded-IsLocal :
        {L : Lmdb} (d : DLmdb L) (k bytes : Bytes) (now : ℕ)
        → IsLocal (decode_and_reap d k (some bytes) now).1
    decoded-IsLocal d k bytes now =
        unfold decode_and_reap decode_live_value in
        reap-IsLocal d k (decode_live_value bytes now) (live_of-IsLocal (decode bytes) now)

module _ (c : Context) where
  with_retry_after-status :
      (secs : Option ℕ) (r : Response) → (with_retry_after c.axum secs r).status ≡ r.status
  with_retry_after-status none r = refl
  with_retry_after-status (some secs) r = ground arith

  pub error_response-status :
      (e : Error)
      → (error_response c e).status
        ≡ (from_error c.local_port c.engine_text c.client_text c.trace_id e).status
  unfolding into_response
  error_response-status e = with_retry_after-status _ _

  local_error-status :
      (e : Error)
      → IsLocal {A = Unit {0}} (err e)
      → (error_response c e).status ≡ internal_server_error
  unfolding from_error
  local_error-status (engine x) h = error_response-status (engine x)
  local_error-status (storage x) h = error_response-status (storage x)
  local_error-status _ h = absurd h

  -- the answer for what a key shows
  abbrev pub answer_for : Option Bytes → Response
  answer_for v = value_response c (ok v)

  module _ {L : Lmdb} (laws : IsLawful L) where
    -- An eventual read over HTTP answers 200 with the bytes that the key shows at the time of the
    -- read, 404 where it shows none, or, where LMDB fails or the stored value is corrupt, 500.
    pub get_handler_answers :
        (d : DLmdb L) (key : Bytes)
        (confirm : ConsistencyLevel → Result (Option Bytes) ClientApiError) (now : ℕ)
        → ((get_handler c d key eventual confirm now).1
            ≡ answer_for (visible (reads d.state_machine) now key))
          ⊎ ((get_handler c d key eventual confirm now).1.status ≡ internal_server_error)
    unfolding get_handler
    get_handler_answers d key confirm now = elim (Result-cases (Read.get d key now).1) [
      | inl (v, e) ↦ inl (ap (value_response c) e ∙ ap answer_for (get_shows laws d key now e).0)
      | inr (x, e) ↦ inr (
          ap (λ r. (value_response c r).status) e
          ∙ local_error-status x (local x (subst (λ r. IsLocal r) e (get-IsLocal d key now))))
    ]
      where
        local : (x : Error) → IsLocal {A = Option Bytes} (err x) → IsLocal {A = Unit {0}} (err x)
        local (engine y) h = tt
        local (storage y) h = tt
        local _ h = absurd h
