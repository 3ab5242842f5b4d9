-- ===== src/Http/Kv/RoundTrip.antt =====
-- A write over HTTP, then a read: the handlers of d-lmdb-server/src/http/kv.rs one after the other.
use d_lmdb.Base.{
  ℕ, ◌≡◌, refl, sym, ap, ◌∙◌, ◌⊎◌, inl, inr, Bool, Option, some, [], ◌∷◌, Result, ok, err,
  Result-cases, arith,
}
use d_lmdb.Bytes.{Bytes, ascii}
use d_lmdb.Wire.{encode_raw}
use d_lmdb.Lmdb.{Lmdb, IsLawful}
use d_lmdb.Machine.Types.{LmdbStateMachine, EngineError}
use d_lmdb.Machine.Scan
use d_lmdb.Db.Types.{ClientApiError, Error, engine}
use d_lmdb.Db.Decode.Expiry.{live-encode_raw}
use d_lmdb.Db.Read
use d_lmdb.Db.Read.{DLmdb, reap, decode_and_reap, fetch_local}
use d_lmdb.Db.Read.Reap.{get-lookup}
use d_lmdb.Db.Write.{Request, db_put, db_delete}
use d_lmdb.Db.Write.Effect.{Commits, db_put-reads}
use d_lmdb.Db.Write.Swap.{visible-db_delete}
use d_lmdb.Http.Error.{internal_server_error, not_found_status, not_found, from_error}
use d_lmdb.Http.Error.Mapping.{from_error-status-ne}
use d_lmdb.Http.Response.{into_response}
use d_lmdb.Http.Kv.{
  ConsistencyLevel, eventual, Context, unit_response, value_response, get_handler, put_handler,
  delete_handler,
}
use d_lmdb.Http.Kv.Answers.{error_response-status, answer_for, get_handler_answers}

-- a local read of a value without an expiry, and one that LMDB fails
get_found :
    {L : Lmdb} (d : DLmdb L) (k x : Bytes) (now : ℕ)
    → Scan.get d.state_machine k ≡ ok (some (encode_raw x))
    → Read.get d k now ≡ (d, ok (some x))
unfolding Read.get decode_and_reap
get_found d k x now e = rw (e, fetch_local) (ap (reap d k) (live-encode_raw x now))

get_failed :
    {L : Lmdb} (d : DLmdb L) (k : Bytes) (now : ℕ) {e : EngineError}
    → Scan.get d.state_machine k ≡ err e
    → Read.get d k now ≡ (d, err (engine e))
unfolding Read.get
get_failed d k now e = rw (e, fetch_local) refl

engine-status :
    (c : Context) (e : EngineError)
    → (from_error c.local_port c.engine_text c.client_text c.trace_id (engine e)).status
      ≡ internal_server_error
unfolding from_error
engine-status c e = refl

module _ (c : Context) where
  -- 204 is answered for successes alone.
  unit_response-ok : (r : Result (Unit {0}) Error) → (unit_response c r).status ≡ 204 → r ≡ ok tt
  unit_response-ok (ok u) h = refl
  unit_response-ok (err e) h = absurd (
      from_error-status-ne c.local_port c.engine_text c.client_text c.trace_id e 204 (omega arith)
        (sym (error_response-status c e) ∙ h))

  -- the node's handle after the world has changed
  abbrev pub handle_at : {W : Type 0} {L : Lmdb} → (W → LmdbStateMachine L) → DLmdb L → W → DLmdb L
  handle_at machine d w = record d { state_machine = machine w }

  module _ {W : Type 0} {L : Lmdb} (laws : IsLawful L) (machine : W → LmdbStateMachine L)
      (submit : Request → W → W × Result Bool ClientApiError) (commits : Commits machine submit)
      (d : DLmdb L) where
    -- After a PUT that was answered with 204, on a node that applied what its engine reported as
    -- done, an eventual GET of the key there, at any time, answers 200 with the bytes of the body
    -- and leaves the node as it was, unless the state machine's own read of the key fails: then it
    -- answers 500.
    pub put_handler-get_handler :
        (key body : Bytes) (w : W)
        (confirm : ConsistencyLevel → Result (Option Bytes) ClientApiError) (t : ℕ)
        → (put_handler c submit d key body w).1.status ≡ 204
        → let w' = (put_handler c submit d key body w).0 in
          let answer = get_handler c (handle_at machine d w') key eventual confirm t in
          (answer ≡ (
            handle_at machine d w',
            record {
              status = 200;
              headers = (ascii "content-type", ascii "application/octet-stream") ∷ [];
              body = ok body;
            },
          ))
          ⊎ ((e : EngineError) × (Scan.get (machine w') key ≡ err e)
              × (answer.1.status ≡ internal_server_error))
    unfolding put_handler get_handler
    put_handler-get_handler key body w confirm t h =
        let w' = (db_put submit d key body w).0 in
        let written =
          db_put-reads laws machine submit commits d key body w
            (unit_response-ok (db_put submit d key body w).1 h) in
        elim (Result-cases (Scan.get (machine w') key)) [
          | inl (o, e) ↦
              let found : o ≡ some (encode_raw body) =
                get-lookup laws (machine w') key e ∙ written in
              inl (
                ap (λ p. (p.0, value_response c p.1))
                  (get_found (handle_at machine d w') key body t (e ∙ ap ok found)))
          | inr (x, e) ↦ inr (
            x,
            e,
            ap (λ p. (value_response c p.1).status) (get_failed (handle_at machine d w') key t e)
                ∙ error_response-status c (engine x)
                ∙ engine-status c x,
          )
        ]

    -- After a DELETE that was answered with 204 and applied on this node, an eventual GET of the key
    -- there, at any time, answers 404, or 500 where LMDB fails.
    pub delete_handler-get_handler :
        (key : Bytes) (w : W) (confirm : ConsistencyLevel → Result (Option Bytes) ClientApiError)
        (t : ℕ)
        → (delete_handler c submit d key w).1.status ≡ 204
        → let w' = (delete_handler c submit d key w).0 in
          let r = (get_handler c (handle_at machine d w') key eventual confirm t).1 in
          (r.status ≡ not_found_status) ⊎ (r.status ≡ internal_server_error)
    unfolding delete_handler into_response not_found
    delete_handler-get_handler key w confirm t h =
        let w' = (db_delete submit d key w).0 in
        let gone =
          visible-db_delete laws machine submit commits d key w t
            (unit_response-ok (db_delete submit d key w).1 h) in
        elim (get_handler_answers c laws (handle_at machine d w') key confirm t) [
          | inl e ↦ inl (ap (λ r. r.status) (e ∙ ap (answer_for c) gone))
          | inr e ↦ inr e
        ]
