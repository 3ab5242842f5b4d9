-- ===== src/Http/Response.antt =====
-- Responses in d-lmdb-server/src/http/error.rs: `IntoResponse for HttpError`, and the middleware
-- that gives every error response a JSON body. Headers are entries by their lower-case names.
pub mod Normalize
use d_lmdb.Base.{
  ℕ, Bool, true, false, Option, some, none, List, [], ◌∷◌, ◌&&◌, ◌||◌, not, Result, ok, err, leb,
  if◌then◌else◌,
}
use d_lmdb.Bytes.{Bytes, ascii, starts_with}
use d_lmdb.Text.{decimal}
use d_lmdb.Store.{Entries, lookup, insert}
use d_lmdb.Http.Error.{ErrorBody, HttpError}

-- What is used of `axum`, `http`, `serde_json` and the standard library's lossy decoder. A header's
-- value is text if `to_str` says so.
pub record Axum : Type 0 where
  pub to_json : ErrorBody → Bytes
  pub from_utf8_lossy : Bytes → Bytes
  pub to_str : Bytes → Option Bytes
  pub header_value : Bytes → Option Bytes

-- a body is what reading it to its end gives
pub record Response : Type 0 where
  pub status : ℕ
  pub headers : Entries
  pub body : Result Bytes (Unit {0})

abbrev pub content_type : Bytes
content_type = ascii "content-type"

abbrev pub retry_after : Bytes
retry_after = ascii "retry-after"

abbrev pub application_json : Bytes
application_json = ascii "application/json"

-- `is_client_error` and `is_server_error`
abbrev pub is_error : ℕ → Bool
is_error status = (leb 400 status && leb status 499) || (leb 500 status && leb status 599)

module _ (axum : Axum) where
  -- `(status, Json(body)).into_response()`
  abbrev pub json_response : ℕ → ErrorBody → Response
  json_response status body = record {
    status = status;
    headers = (content_type, application_json) ∷ [];
    body = ok (axum.to_json body);
  }

  -- the `if let` on the seconds and on the header's value
  abbrev pub with_retry_after : Option ℕ → Response → Response
  with_retry_after none response = response
  with_retry_after (some secs) response = elim (axum.header_value (decimal secs)) [
    | none ↦ response
    | some value ↦ record response { headers = insert retry_after value response.headers }
  ]

  unfoldable pub into_response : HttpError → Response
  into_response e = with_retry_after e.retry_after_secs (json_response e.status e.body)

  abbrev pub is_json_type : Option Bytes → Bool
  is_json_type none = false
  is_json_type (some v) = elim (axum.to_str v) [
    | none ↦ false
    | some s ↦ starts_with application_json s
  ]

  abbrev pub is_json : Response → Bool
  is_json response = is_json_type (lookup content_type response.headers)

  abbrev pub message_of : Result Bytes (Unit {0}) → Bytes
  message_of (ok bytes) = axum.from_utf8_lossy bytes
  message_of (err u) = ascii "internal error"

  -- the body as the message of a JSON one
  abbrev pub wrapped : Response → Response
  wrapped response =
      json_response response.status
        (record { error = message_of response.body; leader_hint = none; trace_id = none })

  unfoldable pub normalize_error_body : Response → Response
  normalize_error_body response =
      if not (is_error response.status)
      then response
      else if is_json response
      then response
      else wrapped response
