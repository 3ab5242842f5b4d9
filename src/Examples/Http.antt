-- ===== src/Examples/Http.antt =====
-- Requests to a server, with one node as the cluster.
use d_lmdb.Base.{ℕ, ◌≡◌, ◌++◌, ◌⊎◌, refl, Option, some, [], ◌∷◌, Result, ok, err, arith}
use d_lmdb.Bytes.{Bytes, ascii}
use d_lmdb.Wire.{encode_raw}
use d_lmdb.Lmdb.Memory.{memory, memory-IsLawful}
use d_lmdb.Machine.Types.{EngineError}
use d_lmdb.Machine.Scan
use d_lmdb.Text.{decimal}
use d_lmdb.Machine.Apply.{term_insert, apply_command, apply_entries, finish_chunk, apply_chunk}
use d_lmdb.Db.Types.{Error, ClientApiError, client, business, term_outdated, other_client_error}
use d_lmdb.Db.Decode.{validate_key, validate_value}
use d_lmdb.Db.Write.{db_put}
use d_lmdb.Http.Error.{internal_server_error, HttpError, from_error}
use d_lmdb.Http.Error.Mapping.{Rejects, Refers, Hides, from_error_classified}
use d_lmdb.Http.Response.{Axum, Response, normalize_error_body}
use d_lmdb.Http.Response.Normalize.{
  ReadsJson, ReadsVisible, ReadsAscii, json_error, Normalized, normalize-Normalized,
}
use d_lmdb.Http.Kv.{ConsistencyLevel, eventual, Context, get_handler, put_handler}
use d_lmdb.Http.Kv.RoundTrip.{handle_at, put_handler-get_handler}
use d_lmdb.Http.Server.{put, delete, KvRequest, route, app}
use d_lmdb.Http.Server.Reject.{BadKey, Refused, app_rejects}
use d_lmdb.Examples.{idle, key_a}
use d_lmdb.Db.Read.{DLmdb}
use d_lmdb.Examples.Db.{World, submit, commits, db}

-- a rendering of bodies that gives their message alone
abbrev pub axum : Axum
axum = record {
  to_json = λ b. b.error;
  from_utf8_lossy = λ b. b;
  to_str = λ b. some b;
  header_value = λ b. some b;
}

abbrev engine_text : EngineError → Bytes
engine_text e = ascii "engine"

abbrev client_text : ClientApiError → Bytes
client_text e = ascii "client"

abbrev pub context : Context
context = record {
  axum = axum;
  local_port = some 8080;
  engine_text = engine_text;
  client_text = client_text;
  trace_id = ascii "id";
}

abbrev confirm : ConsistencyLevel → Result (Option Bytes) ClientApiError
confirm level = err (other_client_error (ascii "no quorum"))

put_answered : (put_handler context submit (db idle) key_a (5 ∷ []) idle).1.status ≡ 204
unfolding put_handler db_put validate_key validate_value apply_chunk apply_entries apply_command
    finish_chunk term_insert encode_raw
put_answered = refl

abbrev after_put : World
after_put = (put_handler context submit (db idle) key_a (5 ∷ []) idle).0

abbrev got : DLmdb memory × Response
got =
    get_handler context (handle_at context (λ (m : World). m) (db idle) after_put) key_a eventual
      confirm 100

put_handler-get_handler_example :
    (got ≡ (
      handle_at context (λ (m : World). m) (db idle) after_put,
      record {
        status = 200;
        headers = (ascii "content-type", ascii "application/octet-stream") ∷ [];
        body = ok (5 ∷ []);
      },
    ))
    ⊎ ((e : EngineError) × (Scan.get after_put key_a ≡ err e)
        × (got.1.status ≡ internal_server_error))
put_handler-get_handler_example =
    put_handler-get_handler context memory-IsLawful (λ (m : World). m) submit commits (db idle)
      key_a (5 ∷ []) idle confirm 100 put_answered

abbrev outdated : Error
outdated = client (business term_outdated (ascii "term 3 is over"))

abbrev outdated_response : HttpError
outdated_response = from_error (some 8080) engine_text client_text (ascii "id") outdated

from_error_classified_example :
    Rejects (some 8080) engine_text client_text (ascii "id") outdated outdated_response
    ⊎ Refers (some 8080) engine_text client_text (ascii "id") outdated outdated_response
    ⊎ Hides (some 8080) engine_text client_text (ascii "id") outdated outdated_response
from_error_classified_example =
    from_error_classified (some 8080) engine_text client_text (ascii "id") outdated

pub reads_visible : ReadsVisible axum
reads_visible b h = refl

pub reads_ascii : ReadsAscii axum
reads_ascii b h = refl

pub reads_json : ReadsJson axum
reads_json = refl

-- what a router answers to a method that it does not have
abbrev not_allowed : Response
not_allowed = record { status = 405; headers = (ascii "allow", ascii "GET") ∷ []; body = ok [] }

normalize-Normalized_example :
    Normalized axum not_allowed (normalize_error_body axum not_allowed)
    × (normalize_error_body axum (normalize_error_body axum not_allowed)
        ≡ normalize_error_body axum not_allowed)
normalize-Normalized_example = normalize-Normalized axum reads_json not_allowed

-- a PUT of nine bytes, where eight are the limit
abbrev long_body : Bytes
long_body = 1 ∷ 2 ∷ 3 ∷ 4 ∷ 5 ∷ 6 ∷ 7 ∷ 8 ∷ 9 ∷ []

abbrev long_put : KvRequest
long_put = record { method = put; key = ok key_a; level = ok eventual; body = ok long_body }

abbrev confirmed : ConsistencyLevel → Bytes → World → Result (Option Bytes) ClientApiError
confirmed level k m = confirm level

abbrev keep : DLmdb memory → World → World
keep d m = d.state_machine

abbrev served : KvRequest → World → World × Response
served = route context submit db keep confirmed 9

abbrev let_through :
    ℕ → (KvRequest → World → World × Response) → KvRequest → World → World × Response
let_through limit inner req m = inner req m

-- a DELETE of a key with a slash
abbrev slash_delete : KvRequest
slash_delete = record { method = delete; key = ok (ascii "a/b"); level = ok eventual; body = ok [] }

app_rejects_example :
    (app axum let_through (db idle) served slash_delete idle
      ≡ (idle, json_error axum 400 (ascii "key must not contain '/'")))
    × (app axum let_through (db idle) served long_put idle ≡ (
      idle,
      json_error axum 400 (ascii "value too large: " ++ (decimal 9 ++ ascii " bytes (max 1MB)")),
    ))
app_rejects_example = (
  app_rejects context submit db keep confirmed 9 reads_visible reads_ascii let_through (db idle)
      slash_delete idle (ascii "key must not contain '/'") refl
      (Refused.bad_key (BadKey.slash (ascii "a") (ascii "b"))),
  app_rejects context submit db keep confirmed 9 reads_visible reads_ascii let_through (db idle)
      long_put idle (ascii "value too large: " ++ (decimal 9 ++ ascii " bytes (max 1MB)")) refl
      (Refused.long_value 97 [] long_body refl refl (ground arith) refl (omega arith)
        (omega arith)),
)
