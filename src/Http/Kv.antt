-- ===== src/Http/Kv.antt =====
-- The handlers of d-lmdb-server/src/http/kv.rs. A request's key and body are what the extractors of
-- `axum` give, or the rejection that they answer with; keys are texts, as their UTF-8 bytes.
pub mod Answers
pub mod RoundTrip
use d_lmdb.Base.{
  ℕ, ◌==◌, ◌||◌, Bool, true, false, Option, some, none, List, [], ◌∷◌, Result, ok, err, map_err,
  if◌then◌else◌,
}
use d_lmdb.Bytes.{Bytes, ascii}
use d_lmdb.Lmdb.{Lmdb}
use d_lmdb.Machine.Types.{EngineError, LmdbStateMachine}
use d_lmdb.Db.Types.{ClientApiError, Error}
use d_lmdb.Db.Read
use d_lmdb.Db.Read.{DLmdb, get_confirmed}
use d_lmdb.Db.Write.{Request, Call, db_put, db_delete}
use d_lmdb.Http.Error.{HttpError, bad_request, not_found, from_error}
use d_lmdb.Http.Response.{Axum, Response, content_type, into_response}

pub data ConsistencyLevel : Type 0 where
  eventual linearizable lease : ConsistencyLevel

abbrev pub contains_slash : Bytes → Bool
contains_slash [] = false
contains_slash (c ∷ s) = c == b'/' || contains_slash s

-- `ValidKey::from_request_parts`, from what `Path<String>` gave
unfoldable pub valid_key : Result Bytes (Unit {0}) → Result Bytes (ℕ × Bytes)
valid_key (err u) = err (bad_request, ascii "invalid key encoding")
valid_key (ok []) = err (bad_request, ascii "key must not be empty")
valid_key (ok (c ∷ s)) =
    if contains_slash (c ∷ s)
    then err (bad_request, ascii "key must not contain '/'")
    else ok (c ∷ s)

-- responses of `axum`: a text with its status, a byte string, a status alone
abbrev pub text_response : ℕ × Bytes → Response
text_response (status, text) = record {
  status = status;
  headers = (content_type, ascii "text/plain; charset=utf-8") ∷ [];
  body = ok text;
}

abbrev pub bytes_response : Bytes → Response
bytes_response bytes = record {
  status = 200;
  headers = (content_type, ascii "application/octet-stream") ∷ [];
  body = ok bytes;
}

abbrev pub no_content : Response
no_content = record { status = 204; headers = []; body = ok [] }

-- What the handlers use of their surroundings: the node's port, the texts of errors, a fresh
-- identifier for the log.
pub record Context : Type 0 where
  pub axum : Axum
  pub local_port : Option ℕ
  pub engine_text : EngineError → Bytes
  pub client_text : ClientApiError → Bytes
  pub trace_id : Bytes

module _ (c : Context) where
  -- `?` in a handler, and the response of the error
  abbrev pub error_response : Error → Response
  error_response e =
      into_response c.axum (from_error c.local_port c.engine_text c.client_text c.trace_id e)

  abbrev pub value_response : Result (Option Bytes) Error → Response
  value_response (ok (some bytes)) = bytes_response bytes
  value_response (ok none) = into_response c.axum not_found
  value_response (err e) = error_response e

  abbrev pub unit_response : Result (Unit {0}) Error → Response
  unit_response (ok u) = no_content
  unit_response (err e) = error_response e

  -- the engine's answer to a confirmed read is an argument
  unfoldable pub get_handler :
      {L : Lmdb}
      → DLmdb L
      → Bytes
      → ConsistencyLevel
      → (ConsistencyLevel → Result (Option Bytes) ClientApiError)
      → ℕ
      → DLmdb L × Response
  get_handler d key eventual confirm now =
      let (d', r) = Read.get d key now in (d', value_response r)
  get_handler d key linearizable confirm now =
      let (d', r) = get_confirmed d key (confirm linearizable) now in (d', value_response r)
  get_handler d key lease confirm now =
      let (d', r) = get_confirmed d key (confirm lease) now in (d', value_response r)

  module _ {W : Type 0} (submit : Request → W → W × Result Bool ClientApiError) {L : Lmdb}
      (d : DLmdb L) where
    unfoldable pub put_handler : Bytes → Bytes → W → W × Response
    put_handler key body w = let (w', r) = db_put submit d key body w in (w', unit_response r)

    unfoldable pub delete_handler : Bytes → W → W × Response
    delete_handler key w = let (w', r) = db_delete submit d key w in (w', unit_response r)
